-- ===== src/Socket/Descriptors.antt =====
-- lib/Socket.cpp: which descriptors the UDP and TCP sockets hold, and which the process has open.
-- What the kernel and getaddrinfo return is an argument; `fds` lists the open descriptors.
pub mod Udp
pub mod Tcp
use odr_source_companion.Base.{
  ℕ, ◌==◌, if◌then◌else◌, Bool, true, false, List, [], ◌∷◌, Option, none, some,
}

-- A system call's `close`: it does nothing on a descriptor that is not open.
unfoldable pub os_close : ℕ → List ℕ → List ℕ
os_close fd [] = []
os_close fd (x ∷ fds) = let rest = os_close fd fds in if x == fd then fds else x ∷ rest

-- INVALID_SOCKET is `none`.
unfoldable pub close_valid : Option ℕ → List ℕ → List ℕ
close_valid none fds = fds
close_valid (some fd) fds = os_close fd fds

-- How a call ends: what the object's `m_sock` is, the open descriptors, and whether an exception was
-- thrown.
pub record Effect : Type 0 where
  pub m_sock : Option ℕ
  pub fds : List ℕ
  pub thrown : Bool

-- An address that getaddrinfo returned, with what ::socket and ::bind do for it.
pub record BindAddress : Type 0 where
  pub socket : Option ℕ
  pub bind_succeeds : Bool

-- The loop over the addresses in `reinit`.
unfoldable pub bind_first : List BindAddress → List ℕ → Option ℕ × List ℕ
bind_first [] fds = (none, fds)
bind_first (rp ∷ result) fds =
    let rest = bind_first result fds in
    elim rp.socket [
      | none ↦ rest
      | some sfd ↦
          let failed = bind_first result (os_close sfd (sfd ∷ fds)) in
          if rp.bind_succeeds then (some sfd, sfd ∷ fds) else failed
    ]

reinit_bound : Option ℕ → Option ℕ × List ℕ → Effect
reinit_bound m_sock (none, fds) = record { m_sock = m_sock; fds = fds; thrown = true }
reinit_bound m_sock (some sfd, fds) = record { m_sock = some sfd; fds = fds; thrown = false }

-- UDPSocket::reinit. `plain` is the result of ::socket for the port 0, and `result` that of
-- getaddrinfo, `none` if it fails.
unfoldable pub reinit : Option ℕ → List ℕ → ℕ → Option ℕ → Option (List BindAddress) → Effect
unfolding reinit_bound close_valid
reinit m_sock fds port plain result =
    let closed = close_valid m_sock fds in
    if port == 0
    then elim plain [
      | none ↦ record { m_sock = none; fds = closed; thrown = false }
      | some sfd ↦ record { m_sock = some sfd; fds = sfd ∷ closed; thrown = false }
    ]
    else elim result [
      | none ↦ record { m_sock = m_sock; fds = closed; thrown = true }
      | some addresses ↦ reinit_bound m_sock (bind_first addresses closed)
    ]

-- The destructor of UDPSocket and of TCPSocket, and UDPSocket::close.
unfoldable pub destroy : Option ℕ → List ℕ → List ℕ
unfolding close_valid
destroy m_sock fds = close_valid m_sock fds

-- The move assignments: the new `m_sock`, and that of `other`.
unfoldable pub assign : Option ℕ → Option ℕ → Option ℕ × Option ℕ
assign m_sock other = (other, none)

-- How ::connect and what follows it end for an address. With a timeout: at once, after poll with the
-- SO_ERROR, by an error of poll or getsockopt, or by the timeout.
pub data Connecting : Type 0 where
  at_once : Connecting
  in_progress : Bool → Connecting
  poll_error : Connecting
  no_answer : Connecting
  refused : Connecting

-- An address, with what ::socket, the two calls of fcntl together, and ::connect do for it.
pub record ConnectAddress : Type 0 where
  pub socket : Option ℕ
  pub flags_set : Bool
  pub connecting : Connecting

abbrev pub throw_with : Option ℕ → List ℕ → Effect
throw_with m_sock fds = record { m_sock = m_sock; fds = fds; thrown = true }

abbrev pub connected_to : ℕ → List ℕ → Effect
connected_to sfd fds = record { m_sock = some sfd; fds = sfd ∷ fds; thrown = false }

-- After ::connect without a timeout: EINPROGRESS counts as success.
unfoldable pub after_connect : Connecting → ℕ → List ℕ → Effect → Effect
after_connect at_once sfd fds rest = connected_to sfd fds
after_connect (in_progress so_error) sfd fds rest = connected_to sfd fds
after_connect poll_error sfd fds rest = connected_to sfd fds
after_connect no_answer sfd fds rest = connected_to sfd fds
after_connect refused sfd fds rest = rest

-- TCPSocket::connect with `nonblock`, on an invalid socket.
unfoldable pub connect : Bool → List ConnectAddress → List ℕ → Effect
unfolding after_connect
connect nonblock [] fds = throw_with none fds
connect nonblock (rp ∷ result) fds =
    let rest = connect nonblock result fds in
    elim rp.socket [
      | none ↦ rest
      | some sfd ↦
          let next = connect nonblock result (os_close sfd (sfd ∷ fds)) in
          if nonblock
          then (if rp.flags_set
              then after_connect rp.connecting sfd fds next
              else throw_with none (os_close sfd (sfd ∷ fds)))
          else after_connect rp.connecting sfd fds next
    ]

-- After ::connect with a timeout. The `break` is taken whatever SO_ERROR says.
unfoldable pub after_connect_timeout : Connecting → ℕ → List ℕ → Effect → Effect
after_connect_timeout at_once sfd fds rest = connected_to sfd fds
after_connect_timeout (in_progress so_error) sfd fds rest = connected_to sfd fds
after_connect_timeout poll_error sfd fds rest = throw_with (some sfd) (os_close sfd (sfd ∷ fds))
after_connect_timeout no_answer sfd fds rest = throw_with (some sfd) (os_close sfd (sfd ∷ fds))
after_connect_timeout refused sfd fds rest = rest

-- TCPSocket::connect with `timeout_ms`, on an invalid socket; fcntl fails on the socket that no
-- address gave.
unfoldable pub connect_timeout : List ConnectAddress → List ℕ → Effect
unfolding after_connect_timeout
connect_timeout [] fds = throw_with none fds
connect_timeout (rp ∷ result) fds =
    let rest = connect_timeout result fds in
    elim rp.socket [
      | none ↦ rest
      | some sfd ↦
          let next = connect_timeout result (os_close sfd (sfd ∷ fds)) in
          if rp.flags_set
          then after_connect_timeout rp.connecting sfd fds next
          else throw_with none (sfd ∷ fds)
    ]

-- An address, with what ::socket, SO_REUSEADDR and ::bind do for it.
pub record ListenAddress : Type 0 where
  pub socket : Option ℕ
  pub reuse_set : Bool
  pub bind_succeeds : Bool

-- TCPSocket::listen on an invalid socket; `listens` is whether ::listen succeeds.
unfoldable pub listen : List ListenAddress → Bool → List ℕ → Effect
listen [] listens fds = throw_with none fds
listen (rp ∷ result) listens fds =
    let rest = listen result listens fds in
    elim rp.socket [
      | none ↦ rest
      | some sfd ↦
          let next = listen result listens (os_close sfd (sfd ∷ fds)) in
          if rp.reuse_set
          then (if rp.bind_succeeds
              then (if listens then connected_to sfd fds else throw_with (some sfd) (sfd ∷ fds))
              else next)
          else throw_with none (sfd ∷ fds)
    ]
