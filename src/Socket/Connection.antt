-- ===== src/Socket/Connection.antt =====
-- TCPConnection of lib/Socket.cpp: a queue of buffers and the thread that sends them. The thread is
-- its place in the code; a round of a loop is one step.
pub mod Stream
pub mod Drain
use odr_source_companion.Base.{
  ℕ, zero, suc, ltb, ◌==◌, if◌then◌else◌, Bool, true, false, List, [], ◌∷◌, ◌++◌, length, take,
  drop, Option, none, some,
}
use odr_source_companion.ThreadsafeQueue.{
  ThreadsafeQueue, waiting, wakeup, popped, undefined, push, wait_and_pop,
}
use odr_source_companion.Socket.{TcpSocket, Polled, send}

abbrev pub Buffer : Type 0
Buffer = List ℕ

-- Where the thread stands: at the test of the outer loop, in `wait_and_pop`, at the test of the
-- inner loop with the bytes that remain, past the loops, or stopped by an exception that is not
-- caught.
pub data Sender : Type 0 where
  at_test : Sender
  at_pop : Sender
  sending : List ℕ → Sender
  ended : Sender
  terminated : List ℕ → Sender

pub record TcpConnection : Type 0 where
  pub queue : ThreadsafeQueue Buffer
  pub m_running : Bool
  pub m_sender_thread : Sender
  pub m_sock : TcpSocket

unfoldable pub new : TcpSocket → TcpConnection
new sock = record {
  queue = record { the_queue = []; wakeup_requested = false };
  m_running = true;
  m_sender_thread = at_test;
  m_sock = sock;
}

-- The destructor, up to its `join`.
unfoldable pub delete : TcpConnection → TcpConnection
delete self = record self { queue = (push self.queue [] 0).1; m_running = false }

-- An empty vector is the termination marker.
unfoldable pub start_sending : TcpConnection → Buffer → ThreadsafeQueue Buffer → TcpConnection
start_sending self buf queue =
    if length buf == 0
    then record self { queue = queue; m_running = false; m_sender_thread = ended }
    else record self { queue = queue; m_sender_thread = sending buf }

-- The round that pops. Nothing catches a ThreadsafeQueueWakeup.
unfoldable pub pop : TcpConnection → TcpConnection
unfolding start_sending
pop self = elim (wait_and_pop self.queue 1) [
  | waiting ↦ self
  | wakeup queue ↦ record self { queue = queue; m_sender_thread = terminated [] }
  | popped buf queue ↦ start_sending self buf queue
  | undefined ↦ record self { m_sender_thread = terminated [] }
]

-- What the inner loop does with the result of `send`: `none` is a runtime_error, which is caught;
-- the logic_error for more bytes than remain is not.
unfoldable pub count_sent : TcpConnection → List ℕ → Option ℕ → TcpConnection
count_sent self buf none = record self { m_running = false; m_sender_thread = at_test }
count_sent self buf (some sent) =
    if ltb (length buf) sent
    then record self { m_sender_thread = terminated buf }
    else record self {
      m_sender_thread = sending (drop sent buf);
      m_sock = record { m_sock = self.m_sock.m_sock; stream = self.m_sock.stream ++ take sent buf };
    }

-- `timeout_ms` is 10.
unfoldable pub send_round : TcpConnection → List ℕ → Polled → Option ℕ → TcpConnection
unfolding count_sent
send_round self buf retval ret =
    if self.m_running
    then (if length buf == 0
        then record self { m_sender_thread = at_test }
        else count_sent self buf (send 10 retval ret))
    else record self { m_sender_thread = at_test }

unfoldable pub process_at : Sender → TcpConnection → Polled → Option ℕ → TcpConnection
unfolding pop send_round
process_at at_test self retval ret =
    if self.m_running
    then record self { m_sender_thread = at_pop }
    else record self { m_sender_thread = ended }
process_at at_pop self retval ret = pop self
process_at (sending buf) self retval ret = send_round self buf retval ret
process_at ended self retval ret = self
process_at (terminated buf) self retval ret = self

-- One round of `process`; `retval` and `ret` are what poll and ::send return in it.
unfoldable pub process : TcpConnection → Polled → Option ℕ → TcpConnection
unfolding process_at
process self retval ret = process_at self.m_sender_thread self retval ret
