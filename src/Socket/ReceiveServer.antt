-- ===== src/Socket/ReceiveServer.antt =====
-- TCPReceiveServer of lib/Socket.cpp: a listener thread that serves one client after the other, and
-- a queue of messages to the reader. An error of `accept`, which nothing catches there, is left out.
pub mod Rounds
pub mod Session
pub mod Timeouts
use odr_source_companion.Base.{
  ℕ, suc, ltb, ◌&&◌, if◌then◌else◌, Bool, true, false, List, [], ◌∷◌, Option, none, some,
}
use odr_source_companion.ThreadsafeQueue.{ThreadsafeQueue, push, try_pop}
use odr_source_companion.Socket.{
  TcpSocket, Received, received, interrupted, timeout, error, valid, close,
}

-- The subclasses of TCPReceiveMessage.
pub data TcpReceiveMessage : Type 0 where
  disconnected : TcpReceiveMessage
  empty : TcpReceiveMessage
  bytes : List ℕ → TcpReceiveMessage

-- The block size only bounds what ::recv reads.
pub record TcpReceiveServer : Type 0 where
  pub m_blocksize : ℕ
  pub m_queue : ThreadsafeQueue TcpReceiveMessage
  pub m_running : Bool

unfoldable pub new : ℕ → TcpReceiveServer
new blocksize = record {
  m_blocksize = blocksize;
  m_queue = record { the_queue = []; wakeup_requested = false };
  m_running = false;
}

-- Where `listen` succeeds.
unfoldable pub start : TcpReceiveServer → TcpReceiveServer
start self = record self { m_running = true }

-- The message, and the server.
unfoldable pub receive : TcpReceiveServer → TcpReceiveMessage × TcpReceiveServer
receive self = elim (try_pop self.m_queue) [
  | none ↦ (empty, self)
  | some (buffer, queue) ↦ (buffer, record self { m_queue = queue })
]

unfoldable pub push_message : TcpReceiveServer → TcpReceiveMessage → TcpReceiveServer
push_message self message = record self { m_queue = (push self.m_queue message 0).1 }

-- How a round of the inner loop of `process` ends: by a `break`, or at its end, with the socket and
-- `num_timeouts`.
pub data Round : Type 0 where
  leaves : TcpReceiveServer → Round
  goes_on : TcpReceiveServer → TcpSocket → ℕ → Round

-- `max_num_timeouts` is 10000 / 1000.
abbrev pub max_num_timeouts : ℕ
max_num_timeouts = 10

-- The end of a round.
unfoldable pub check_timeouts : TcpReceiveServer → TcpSocket → ℕ → Round
unfolding push_message
check_timeouts self sock num_timeouts =
    if ltb max_num_timeouts num_timeouts
    then goes_on (push_message self disconnected) (close sock) num_timeouts
    else goes_on self sock num_timeouts

-- A round of the inner loop; `r` is how `recv` ends.
unfoldable pub receive_round : TcpReceiveServer → TcpSocket → ℕ → Received → Round
unfolding check_timeouts push_message
receive_round self sock num_timeouts (received []) = leaves (push_message self disconnected)
receive_round self sock num_timeouts (received (b ∷ buf)) =
    check_timeouts (push_message self (bytes (b ∷ buf))) sock num_timeouts
receive_round self sock num_timeouts interrupted = leaves self
receive_round self sock num_timeouts timeout = check_timeouts self sock (suc num_timeouts)
receive_round self sock num_timeouts error =
    check_timeouts (push_message self disconnected) (close sock) num_timeouts

-- The inner loop of `process`, for the ends of the calls of `recv` in it: the server, and whether
-- the loop waits in `recv` for more.
unfoldable pub session : TcpReceiveServer → TcpSocket → ℕ → List Received → TcpReceiveServer × Bool
unfolding receive_round
session self sock num_timeouts [] = (self, self.m_running && valid sock)
session self sock num_timeouts (r ∷ rs) = elim (self.m_running && valid sock) [
  | false ↦ (self, false)
  | true ↦ elim (receive_round self sock num_timeouts r) [
    | leaves self' ↦ (self', false)
    | goes_on self' sock' num_timeouts' ↦ session self' sock' num_timeouts' rs
  ]
]

-- The outer loop of `process`, for the sockets that `accept` returns and the ends of `recv` on each:
-- the loop accepts again when a session is over.
unfoldable pub process : TcpReceiveServer → List (TcpSocket × List Received) → TcpReceiveServer
unfolding session
process self [] = self
process self ((sock, rs) ∷ clients) =
    let (self', waits) = session self sock 0 rs in
    let rest = process self' clients in
    if self.m_running then (if waits then self' else rest) else self
