-- ===== src/Tests/Sockets.antt =====
-- lib/Socket.cpp at small buffers, and a kernel that takes at most two bytes at a time.
use odr_source_companion.Base.{
  ℕ, min, true, false, List, [], ◌∷◌, Option, none, some, ◌≡◌, refl, arith,
}
use odr_source_companion.ThreadsafeQueue.{push}
use odr_source_companion.Socket.{
  TcpSocket, Received, received, timeout, error, Polled, events, timed_out, valid, send, all_sent,
  send_failed,
}
use odr_source_companion.Socket
use odr_source_companion.Socket.Datagrams.{receive_from, datagram, recvfrom_failed, packets}
use odr_source_companion.Socket.SendAll.{Takes, Sent, sendall-Sent}
use odr_source_companion.Socket.Connection.{Buffer, TcpConnection, at_test, at_pop}
use odr_source_companion.Socket.Connection.Drain.{rounds, running, rounds-running}
use odr_source_companion.Socket.Dispatcher.{
  TcpDataDispatcher, new, start, write_queues, keep_preroll, push_to, write, process, send_at,
  connect, push_each,
}
use odr_source_companion.Socket.Dispatcher.Bounds.{write_lem}
use odr_source_companion.Socket.Dispatcher.Promise.{
  Subscribers, Event, wrote, accepted, quiet, Implements,
}
use odr_source_companion.Socket.Dispatcher.Refinement.{
  writes, listens, sends, Run, stop, step, SpecRun, Run-SpecRun,
}
use odr_source_companion.Socket.ReceiveServer.{TcpReceiveServer, session}
use odr_source_companion.Socket.ReceiveServer.Session.{messages, Transcript, session-Transcript}
use odr_source_companion.Socket.ReceiveServer.Timeouts.{IsDropped, session-IsDropped}
use odr_source_companion.Socket.SendClient.{TcpSendClient, max_queue_size}
use odr_source_companion.Socket.SendClient
use odr_source_companion.Socket.SendClient.Newest.{sendall_lem}
use odr_source_companion.Socket.Descriptors.{
  reinit, ConnectAddress, in_progress, refused, no_answer,
}
use odr_source_companion.Socket.Descriptors.Udp.{IsRebound, reinit-IsRebound}

two_at_most : ℕ → Option ℕ
two_at_most asked = some (min asked 2)

two_at_most-Takes : Takes two_at_most
unfolding two_at_most
two_at_most-Takes asked sent h e = ground arith

sendall-Sent_example : Sent (1 ∷ 2 ∷ 3 ∷ []) (Socket.sendall 3 two_at_most (1 ∷ 2 ∷ 3 ∷ []) [])
sendall-Sent_example = sendall-Sent two_at_most (1 ∷ 2 ∷ 3 ∷ []) two_at_most-Takes

abbrev a_socket : TcpSocket
a_socket = record { m_sock = some 7; stream = [] }

rounds-running_example :
    rounds 11 (λ n asked. min asked 2) (running ((1 ∷ 2 ∷ 3 ∷ []) ∷ (4 ∷ []) ∷ []) at_test a_socket)
    ≡ running [] at_pop (record { m_sock = some 7; stream = 1 ∷ 2 ∷ 3 ∷ 4 ∷ [] })
rounds-running_example =
    rounds-running (λ n asked. min asked 2) (λ n asked h. (omega arith, omega arith)) 11
      ((1 ∷ 2 ∷ 3 ∷ []) ∷ (4 ∷ []) ∷ []) at_test a_socket (omega arith) tt (omega arith)

abbrev a_dispatcher : TcpDataDispatcher
a_dispatcher = record {
  m_max_queue_size = 2;
  m_buffers_to_preroll = 1;
  m_running = true;
  m_preroll_queue = (1 ∷ []) ∷ [];
  m_connections =
      running ((1 ∷ []) ∷ []) at_test a_socket
      ∷ running ((0 ∷ []) ∷ (1 ∷ []) ∷ []) at_pop a_socket
      ∷ [];
}

-- The second client is too slow.
write_lem_example :
    write a_dispatcher (2 ∷ [])
    ≡ some (record a_dispatcher {
      m_preroll_queue = (2 ∷ []) ∷ [];
      m_connections = running ((1 ∷ []) ∷ (2 ∷ []) ∷ []) at_test a_socket ∷ [];
    })
write_lem_example = write_lem a_dispatcher (2 ∷ []) (omega arith)

-- A write, a client that comes, another write, and two rounds of the client's thread.
after_write : Option TcpDataDispatcher
unfolding start new write_queues
after_write = write_queues (start (new 2 1)) (1 ∷ [])

abbrev with_preroll : TcpDataDispatcher
with_preroll = record {
  m_max_queue_size = 2;
  m_buffers_to_preroll = 1;
  m_running = true;
  m_preroll_queue = (1 ∷ []) ∷ [];
  m_connections = [];
}

abbrev with_client : TcpDataDispatcher
with_client = record with_preroll { m_connections = running ((1 ∷ []) ∷ []) at_test a_socket ∷ [] }

abbrev with_test : TcpDataDispatcher
with_test = record with_preroll { m_connections = running ((1 ∷ []) ∷ []) at_pop a_socket ∷ [] }

abbrev some_events : List Event
some_events = wrote (1 ∷ []) ∷ accepted ∷ quiet ∷ []

a_run : Run (start (new 2 1)) some_events with_test
unfolding start new write_queues process valid connect push_each push_to push keep_preroll send_at
    Socket.Connection.process Socket.Connection.new
a_run = step {next = with_preroll} (writes (1 ∷ []) refl) (
    step {next = with_client} (listens a_socket refl refl refl)
      (step {next = with_test} (sends 0 timed_out none) stop))

Run-SpecRun_example :
    (s : Subscribers) × SpecRun 1 (record { recent = []; due = [] }) some_events s
    × Implements 1 with_test s
Run-SpecRun_example = Run-SpecRun 2 1 a_run

abbrev a_server : TcpReceiveServer
a_server = record {
  m_blocksize = 2;
  m_queue = record { the_queue = []; wakeup_requested = false };
  m_running = true;
}

good_socket : valid a_socket ≡ true
unfolding valid
good_socket = refl

abbrev some_reads : List Received
some_reads = received (1 ∷ 2 ∷ []) ∷ timeout ∷ received (3 ∷ []) ∷ error ∷ received (4 ∷ []) ∷ []

session-Transcript_example :
    Transcript
      (messages a_server)
      some_reads
      (messages (session a_server a_socket 0 some_reads).0)
      (session a_server a_socket 0 some_reads).1
session-Transcript_example =
    session-Transcript some_reads a_server a_socket 0 refl good_socket (omega arith)

abbrev slow_reads : List Received
slow_reads =
    timeout
    ∷ timeout
    ∷ timeout
    ∷ timeout
    ∷ timeout
    ∷ received (1 ∷ [])
    ∷ timeout
    ∷ timeout
    ∷ timeout
    ∷ timeout
    ∷ timeout
    ∷ received (2 ∷ [])
    ∷ timeout
    ∷ received (3 ∷ [])
    ∷ []

session-IsDropped_example : IsDropped (session a_server a_socket 0 slow_reads)
session-IsDropped_example =
    session-IsDropped slow_reads a_server a_socket 0 refl good_socket (omega arith) (omega arith)
      (omega arith)

abbrev a_client : TcpSendClient
a_client = record {
  m_is_connected = false;
  m_sock = a_socket;
  m_queue = record { the_queue = (1 ∷ []) ∷ []; wakeup_requested = false };
  m_running = true;
  m_sender_thread = SendClient.at_test;
}

sendall_lem_example :
    SendClient.sendall a_client (2 ∷ [])
    ≡ some (record a_client {
      m_queue = record { the_queue = (1 ∷ []) ∷ (2 ∷ []) ∷ []; wakeup_requested = false };
    })
sendall_lem_example = sendall_lem a_client (2 ∷ []) (omega arith)

reinit-IsRebound_example : IsRebound (some 4) (4 ∷ 3 ∷ []) (
    reinit
      (some 4)
      (4 ∷ 3 ∷ [])
      9000
      none
      (some (record { socket = some 5; bind_succeeds = false } ∷ [])))
reinit-IsRebound_example =
    reinit-IsRebound (some 4) (4 ∷ 3 ∷ []) 9000 none
      (some (record { socket = some 5; bind_succeeds = false } ∷ []))

abbrev an_address : ConnectAddress
an_address = record { socket = some 5; flags_set = true; connecting = in_progress false }

-- The first address refuses, and the second one never answers.
abbrev two_addresses : List ConnectAddress
two_addresses =
    record { socket = some 5; flags_set = true; connecting = refused }
    ∷ record { socket = some 6; flags_set = true; connecting = no_answer }
    ∷ []

-- The second socket has nothing, and the third one reports EAGAIN.
three_sockets :
    receive_from (events true) (
      record {
        m_port = 9000;
        pollin = true;
        answer = datagram (record { buffer = 1 ∷ []; address = 8 ∷ [] });
      }
      ∷ record { m_port = 9001; pollin = false; answer = recvfrom_failed false }
      ∷ record { m_port = 9002; pollin = true; answer = recvfrom_failed true }
      ∷ [])
    ≡ packets (
        record { packetdata = 1 ∷ []; received_from = 8 ∷ []; port_received_on = 9000 }
        ∷ record { packetdata = []; received_from = []; port_received_on = 9002 }
        ∷ [])
unfolding receive_from
three_sockets = refl
