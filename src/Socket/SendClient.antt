-- ===== src/Socket/SendClient.antt =====
-- TCPSendClient of lib/Socket.cpp: a queue of buffers, and the thread that connects and sends them.
-- The host name and the port are only handed to `connect`, whose outcome is an argument.
pub mod Newest
pub mod Delivery
use odr_source_companion.Base.{
  ℕ, ltb, if◌then◌else◌, Bool, true, false, List, [], ◌∷◌, ◌++◌, length, Option, none, some,
}
use odr_source_companion.ThreadsafeQueue.{
  ThreadsafeQueue, size, push, try_pop, wait_and_pop, trigger_wakeup, waiting, wakeup, popped,
  undefined,
}
use odr_source_companion.Socket.{
  TcpSocket, new_socket, SendResult, all_sent, send_failed, still_sending,
}
use odr_source_companion.Socket
use odr_source_companion.Socket.Connection.{Buffer}

-- Where the thread stands: at the test of the loop, in `wait_and_pop`, in `sendall`, or past the
-- loop.
pub data ClientThread : Type 0 where
  at_test : ClientThread
  at_pop : ClientThread
  in_sendall : ClientThread
  ended : ClientThread

pub record TcpSendClient : Type 0 where
  pub m_is_connected : Bool
  pub m_sock : TcpSocket
  pub m_queue : ThreadsafeQueue Buffer
  pub m_running : Bool
  pub m_sender_thread : ClientThread

abbrev pub max_queue_size : ℕ
max_queue_size = 512

unfoldable pub new : TcpSendClient
new = record {
  m_is_connected = false;
  m_sock = new_socket;
  m_queue = record { the_queue = []; wakeup_requested = false };
  m_running = true;
  m_sender_thread = at_test;
}

-- The destructor, up to its `join`.
unfoldable pub delete : TcpSendClient → TcpSendClient
delete self = record self { m_running = false; m_queue = trigger_wakeup self.m_queue }

-- `sendall` up to its push. `none` is a runtime_error.
unfoldable pub push_buffer : TcpSendClient → Buffer → Option TcpSendClient
push_buffer self buffer =
    if self.m_running then some (record self { m_queue = (push self.m_queue buffer 0).1 }) else none

-- The rest of `sendall`.
unfoldable pub discard_oldest : TcpSendClient → TcpSendClient
discard_oldest self =
    if ltb max_queue_size (size self.m_queue)
    then elim (try_pop self.m_queue) [
      | none ↦ self
      | some (discard, queue) ↦ record self { m_queue = queue }
    ]
    else self

-- `sendall`, where the thread takes nothing in between.
unfoldable pub sendall : TcpSendClient → Buffer → Option TcpSendClient
unfolding push_buffer discard_oldest
sendall self buffer = elim (push_buffer self buffer) [
  | none ↦ none
  | some pushed ↦ some (discard_oldest pushed)
]

-- After the call of TCPSocket::sendall for what was popped.
unfoldable pub after_sendall : TcpSendClient → ThreadsafeQueue Buffer → SendResult → TcpSendClient
after_sendall self queue (all_sent taken) = record self {
  m_queue = queue;
  m_sock = record { m_sock = self.m_sock.m_sock; stream = self.m_sock.stream ++ taken };
  m_sender_thread = at_test;
}
after_sendall self queue (send_failed taken) = record self {
  m_queue = queue;
  m_is_connected = false;
  m_sock = new_socket;
  m_sender_thread = at_test;
}
after_sendall self queue (still_sending taken) = record self {
  m_queue = queue;
  m_sock = record { m_sock = self.m_sock.m_sock; stream = self.m_sock.stream ++ taken };
  m_sender_thread = in_sendall;
}

-- The pop, and the sending; `kernel` gives the results of ::send. Nothing asserts that a front was
-- there.
unfoldable pub pop_and_send : TcpSendClient → (ℕ → Option ℕ) → TcpSendClient
unfolding after_sendall
pop_and_send self kernel = elim (wait_and_pop self.m_queue 1) [
  | waiting ↦ self
  | wakeup queue ↦ record self { m_queue = queue; m_sender_thread = ended }
  | popped incoming queue ↦
      after_sendall self queue (Socket.sendall (length incoming) kernel incoming [])
  | undefined ↦ record self { m_sender_thread = ended }
]

-- `connected` is the socket that `connect` gives, and `none` its runtime_error, after which the
-- thread sleeps.
unfoldable pub connect : TcpSendClient → Option TcpSocket → TcpSendClient
connect self none = record self { m_is_connected = false }
connect self (some sock) = record self { m_sock = sock; m_is_connected = true }

unfoldable pub process_at :
    ClientThread → TcpSendClient → Option TcpSocket → (ℕ → Option ℕ) → TcpSendClient
unfolding pop_and_send connect
process_at at_test self connected kernel =
    if self.m_running
    then (if self.m_is_connected
        then record self { m_sender_thread = at_pop }
        else connect self connected)
    else record self { m_sender_thread = ended }
process_at at_pop self connected kernel = pop_and_send self kernel
process_at in_sendall self connected kernel = self
process_at ended self connected kernel = self

-- A round of `process`, up to the next wait.
unfoldable pub process : TcpSendClient → Option TcpSocket → (ℕ → Option ℕ) → TcpSendClient
unfolding process_at
process self connected kernel = process_at self.m_sender_thread self connected kernel
