-- ===== src/Socket/Dispatcher.antt =====
-- TCPDataDispatcher of lib/Socket.cpp: one producer, and a TcpConnection for each client. `write`
-- and the listener thread hold the mutex, so that each is one step of the other; the sender threads
-- of the connections run at any time. The text of an exception is left out.
pub mod Preroll
pub mod Bounds
pub mod Promise
pub mod Refinement
use odr_source_companion.Base.{
  ℕ, zero, suc, ltb, if◌then◌else◌, Bool, true, false, List, [], ◌∷◌, ◌++◌, length, drop, map,
  Option, none, some,
}
use odr_source_companion.ThreadsafeQueue.{push, size}
use odr_source_companion.Socket.{TcpSocket, Polled, valid}
use odr_source_companion.Socket.Connection.{Buffer, TcpConnection}
use odr_source_companion.Socket.Connection

pub record TcpDataDispatcher : Type 0 where
  pub m_max_queue_size : ℕ
  pub m_buffers_to_preroll : ℕ
  pub m_running : Bool
  pub m_preroll_queue : List Buffer
  pub m_connections : List TcpConnection

unfoldable pub new : ℕ → ℕ → TcpDataDispatcher
new max_queue_size buffers_to_preroll = record {
  m_max_queue_size = max_queue_size;
  m_buffers_to_preroll = buffers_to_preroll;
  m_running = false;
  m_preroll_queue = [];
  m_connections = [];
}

-- Where `listen` succeeds.
unfoldable pub start : TcpDataDispatcher → TcpDataDispatcher
start self = record self { m_running = true }

-- The destructor.
unfoldable pub delete : TcpDataDispatcher → TcpDataDispatcher
delete self = record self { m_running = false; m_connections = [] }

-- The part of `write` about `m_preroll_queue`.
unfoldable pub keep_preroll : ℕ → List Buffer → Buffer → List Buffer
keep_preroll buffers_to_preroll queue buf =
    if ltb 0 buffers_to_preroll
    then (if ltb buffers_to_preroll (length (queue ++ buf ∷ []))
        then drop 1 (queue ++ buf ∷ [])
        else queue ++ buf ∷ [])
    else queue

unfoldable pub push_to : Buffer → TcpConnection → TcpConnection
push_to buf c = record c { queue = (push c.queue buf 0).1 }

-- `write` up to its call of `remove_if`. `none` is a runtime_error.
unfoldable pub write_queues : TcpDataDispatcher → Buffer → Option TcpDataDispatcher
unfolding keep_preroll push_to
write_queues self buf =
    if self.m_running
    then some (record self {
      m_preroll_queue = keep_preroll self.m_buffers_to_preroll self.m_preroll_queue buf;
      m_connections = map (push_to buf) self.m_connections;
    })
    else none

unfoldable pub remove_if : ℕ → List TcpConnection → List TcpConnection
remove_if max_queue_size [] = []
remove_if max_queue_size (c ∷ cs) =
    let rest = remove_if max_queue_size cs in
    if ltb max_queue_size (size c.queue) then rest else c ∷ rest

unfoldable pub remove_slow : TcpDataDispatcher → TcpDataDispatcher
unfolding remove_if
remove_slow self = record self {
  m_connections = remove_if self.m_max_queue_size self.m_connections;
}

-- `write`, where no sender thread takes a buffer in between.
unfoldable pub write : TcpDataDispatcher → Buffer → Option TcpDataDispatcher
unfolding write_queues remove_slow
write self buf = elim (write_queues self buf) [
  | none ↦ none
  | some written ↦ some (remove_slow written)
]

unfoldable pub push_each : TcpConnection → List Buffer → TcpConnection
unfolding push_to
push_each c [] = c
push_each c (buf ∷ bufs) = push_each (push_to buf c) bufs

-- The new client, with the preroll in its queue.
unfoldable pub connect : TcpDataDispatcher → TcpSocket → TcpConnection
unfolding push_each
connect self sock =
    if ltb 0 self.m_buffers_to_preroll
    then push_each (Connection.new sock) self.m_preroll_queue
    else Connection.new sock

-- One round of `process`: `none` is a runtime_error of `accept`, and a timeout gives an invalid
-- socket.
unfoldable pub process : TcpDataDispatcher → Option TcpSocket → TcpDataDispatcher
unfolding connect
process self none = if self.m_running then record self { m_running = false } else self
process self (some sock) =
    if self.m_running
    then (if valid sock
        then record self { m_connections = connect self sock ∷ self.m_connections }
        else self)
    else self

-- A round of the sender thread of the `i`-th connection.
unfoldable pub send_at : ℕ → Polled → Option ℕ → List TcpConnection → List TcpConnection
send_at i retval ret [] = []
send_at zero retval ret (c ∷ cs) = Connection.process c retval ret ∷ cs
send_at (suc i) retval ret (c ∷ cs) = c ∷ send_at i retval ret cs
