-- ===== src/Socket/ReceiveServer/Rounds.antt =====
-- What each outcome of `recv` makes of a session of TCPReceiveServer.
use odr_source_companion.Base.{
  and_false, ℕ, suc, ◌≤◌, ◌<◌, le→ltb, if_false, ◌&&◌, Bool, true, false, List, [], ◌∷◌, ◌≡◌, refl,
  ap, ◌∙◌, arith,
}
use odr_source_companion.Socket.{
  TcpSocket, Received, received, interrupted, timeout, error, valid, close,
}
use odr_source_companion.Socket.ReceiveServer.{
  disconnected, bytes, TcpReceiveServer, push_message, Round, leaves, goes_on, check_timeouts,
  receive_round, session, max_num_timeouts,
}

pub closed_session :
    (self : TcpReceiveServer) (sock : TcpSocket) (n : ℕ) (rs : List Received)
    → (self.m_running && valid sock) ≡ false
    → session self sock n rs ≡ (self, false)
unfolding session
closed_session self sock n [] e = ap (λ (b : Bool). (self, b)) e
closed_session self sock n (r ∷ rs) e = rw (e, session) refl

abbrev pub after_round : Round → List Received → TcpReceiveServer × Bool
after_round (leaves self) rs = (self, false)
after_round (goes_on self sock n) rs = session self sock n rs

joins :
    (x : Round) (rs : List Received)
    → elim x as (λ x. TcpReceiveServer × Bool) [
      | leaves self' ↦ (self', false)
      | goes_on self' sock' n' ↦ session self' sock' n' rs
    ]
      ≡ after_round x rs
joins (leaves self) rs = refl
joins (goes_on self sock n) rs = refl

open_session :
    (self : TcpReceiveServer) (sock : TcpSocket) (n : ℕ) (r : Received) (rs : List Received)
    → (self.m_running && valid sock) ≡ true
    → session self sock n (r ∷ rs) ≡ after_round (receive_round self sock n r) rs
unfolding session
open_session self sock n r rs e = rw (e, session) (joins (receive_round self sock n r) rs)

no_socket :
    (self : TcpReceiveServer) (sock : TcpSocket) → (self.m_running && valid (close sock)) ≡ false
unfolding valid close
no_socket self sock = and_false self.m_running

-- At most ten timeouts, and an open socket: the round goes on.
pub early :
    (self : TcpReceiveServer) (sock : TcpSocket) (n : ℕ)
    → n ≤ max_num_timeouts
    → check_timeouts self sock n ≡ goes_on self sock n
unfolding check_timeouts
early self sock n h = if_false _ _ _ (le→ltb max_num_timeouts n h)

module _ (self : TcpReceiveServer) (sock : TcpSocket) (rs : List Received) where
  pub data_session :
      (n b : ℕ) (buf : List ℕ)
      → (self.m_running && valid sock) ≡ true
      → n ≤ max_num_timeouts
      → session self sock n (received (b ∷ buf) ∷ rs)
        ≡ session (push_message self (bytes (b ∷ buf))) sock n rs
  unfolding receive_round
  data_session n b buf e h =
      open_session self sock n (received (b ∷ buf)) rs e
      ∙ ap (λ (x : Round). after_round x rs) (early (push_message self (bytes (b ∷ buf))) sock n h)

  pub timeout_session :
      (n : ℕ)
      → (self.m_running && valid sock) ≡ true
      → n < max_num_timeouts
      → session self sock n (timeout ∷ rs) ≡ session self sock (suc n) rs
  unfolding receive_round
  timeout_session n e h =
      open_session self sock n timeout rs e
      ∙ ap (λ (x : Round). after_round x rs) (early self sock (suc n) (omega (arith, h)))

  pub last_timeout :
      (self.m_running && valid sock) ≡ true
      → session self sock max_num_timeouts (timeout ∷ rs) ≡ (push_message self disconnected, false)
  unfolding receive_round check_timeouts
  last_timeout e =
      open_session self sock max_num_timeouts timeout rs e
      ∙ closed_session (push_message self disconnected) (close sock) (suc max_num_timeouts) rs
          (no_socket self sock)

  pub error_session :
      (n : ℕ)
      → (self.m_running && valid sock) ≡ true
      → n ≤ max_num_timeouts
      → session self sock n (error ∷ rs) ≡ (push_message self disconnected, false)
  unfolding receive_round
  error_session n e h =
      open_session self sock n error rs e
      ∙ ap (λ (x : Round). after_round x rs)
          (early (push_message self disconnected) (close sock) n h)
      ∙ closed_session (push_message self disconnected) (close sock) n rs (no_socket self sock)

  pub end_session :
      (n : ℕ)
      → (self.m_running && valid sock) ≡ true
      → session self sock n (received [] ∷ rs) ≡ (push_message self disconnected, false)
  unfolding receive_round
  end_session n e = open_session self sock n (received []) rs e

  pub interrupted_session :
      (n : ℕ)
      → (self.m_running && valid sock) ≡ true
      → session self sock n (interrupted ∷ rs) ≡ (self, false)
  unfolding receive_round
  interrupted_session n e = open_session self sock n interrupted rs e
