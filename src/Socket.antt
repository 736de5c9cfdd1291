-- ===== src/Socket.antt =====
-- lib/Socket.cpp and lib/Socket.h: TCP. The kernel is outside: what poll, ::send and ::recv return
-- is an argument of a call, and a socket keeps the bytes that ::send has taken.
pub mod SendAll
pub mod Connection
pub mod Dispatcher
pub mod ReceiveServer
pub mod SendClient
pub mod Descriptors
pub mod Datagrams
use odr_source_companion.Base.{
  ℕ, zero, suc, ltb, ◌==◌, ◌&&◌, if◌then◌else◌, Bool, true, false, List, [], ◌∷◌, ◌++◌, length,
  take, drop, Option, none, some,
}

-- `m_sock` is the descriptor, and `none` INVALID_SOCKET. `stream` is what ::send has taken so far.
pub record TcpSocket : Type 0 where
  pub m_sock : Option ℕ
  pub stream : List ℕ

abbrev pub new_socket : TcpSocket
new_socket = record { m_sock = none; stream = [] }

unfoldable pub valid : TcpSocket → Bool
valid self = elim self.m_sock [ none ↦ false | some fd ↦ true ]

unfoldable pub close : TcpSocket → TcpSocket
close self = record self { m_sock = none }

pub data Errno : Type 0 where
  eintr : Errno
  econnrefused : Errno
  other_errno : Errno

-- The result of poll: -1 with `errno`, 0, or the number of descriptors, with the events of the one
-- that was asked for.
pub data Polled : Type 0 where
  poll_failed : Errno → Polled
  timed_out : Polled
  events : Bool → Polled

-- `ret` is the result of ::send, and `none` SOCKET_ERROR. The result is `none` for a runtime_error.
unfoldable pub send : ℕ → Polled → Option ℕ → Option ℕ
send timeout_ms retval ret =
    if timeout_ms == 0
    then ret
    else elim retval [ poll_failed e ↦ none | timed_out ↦ some 0 | events pollout ↦ ret ]

-- How `sendall` ends, with the bytes that were taken: it returns 0, or -1, or it is still running.
pub data SendResult : Type 0 where
  all_sent : List ℕ → SendResult
  send_failed : List ℕ → SendResult
  still_sending : List ℕ → SendResult

-- The loop of `sendall`, with a call of ::send for each unit of fuel: `kernel` gives its result for
-- the number of bytes that it is asked to send.
unfoldable pub sendall : ℕ → (ℕ → Option ℕ) → List ℕ → List ℕ → SendResult
sendall zero kernel buf taken = if length buf == 0 then all_sent taken else still_sending taken
sendall (suc calls) kernel buf taken = elim (length buf == 0) [
  | true ↦ all_sent taken
  | false ↦ elim (kernel (length buf)) [
    | none ↦ send_failed taken
    | some sent ↦ sendall calls kernel (drop sent buf) (taken ++ take sent buf)
  ]
]

-- What ::recv returns: -1 with `errno`, or the bytes that it has read.
pub data Answer : Type 0 where
  recv_failed : Errno → Answer
  read_bytes : List ℕ → Answer

-- How `recv` ends: it returns the number of bytes read, or throws Interrupted, Timeout or
-- runtime_error.
pub data Received : Type 0 where
  received : List ℕ → Received
  interrupted : Received
  timeout : Received
  error : Received

unfoldable pub recv : Answer → Received
recv (recv_failed eintr) = interrupted
recv (recv_failed econnrefused) = error
recv (recv_failed other_errno) = error
recv (read_bytes bytes) = received bytes

after_poll : Answer → Received
after_poll (recv_failed eintr) = error
after_poll (recv_failed econnrefused) = received []
after_poll (recv_failed other_errno) = error
after_poll (read_bytes bytes) = received bytes

-- `recv` with a timeout.
unfoldable pub recv_timeout : Polled → Answer → Received
unfolding after_poll
recv_timeout (poll_failed eintr) ret = interrupted
recv_timeout (poll_failed econnrefused) ret = error
recv_timeout (poll_failed other_errno) ret = error
recv_timeout timed_out ret = timeout
recv_timeout (events true) ret = after_poll ret
recv_timeout (events false) ret = timeout
