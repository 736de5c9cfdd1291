-- ===== src/Socket/ReceiveServer/Timeouts.antt =====
-- The timeouts that TCPReceiveServer counts.
use odr_source_companion.Base.{
  ℕ, suc, ◌+◌, ◌≤◌, ◌<◌, ◌&&◌, Bool, true, false, List, [], ◌∷◌, ◌++◌, All, ◌≡◌, refl, sym, ap, ap₂,
  ◌∙◌, subst, arith,
}
use odr_source_companion.ThreadsafeQueue.{push}
use odr_source_companion.Socket.{TcpSocket, Received, received, interrupted, timeout, error, valid}
use odr_source_companion.Socket.ReceiveServer.{
  TcpReceiveMessage, disconnected, bytes, TcpReceiveServer, push_message, session, max_num_timeouts,
}
use odr_source_companion.Socket.ReceiveServer.Session.{messages}
use odr_source_companion.Socket.ReceiveServer.Rounds.{data_session, timeout_session, last_timeout}
use native.Mathlib.Decide.{dec_lt}

-- The call of `recv` read something, or timed out.
abbrev pub IsAlive : Received → Type 0
IsAlive (received []) = ⊥
IsAlive (received (b ∷ buf)) = Unit
IsAlive interrupted = ⊥
IsAlive timeout = Unit
IsAlive error = ⊥

abbrev pub count_timeouts : List Received → ℕ
count_timeouts [] = 0
count_timeouts (received buf ∷ rs) = count_timeouts rs
count_timeouts (interrupted ∷ rs) = count_timeouts rs
count_timeouts (timeout ∷ rs) = suc (count_timeouts rs)
count_timeouts (error ∷ rs) = count_timeouts rs

-- The session is over, and the last message says so.
abbrev pub IsDropped : TcpReceiveServer × Bool → Type 0
IsDropped result =
    (result.1 ≡ false)
    × ((before : List TcpReceiveMessage) × (messages result.0 ≡ before ++ disconnected ∷ []))

dropped : (self : TcpReceiveServer) → IsDropped (push_message self disconnected, false)
unfolding push_message push
dropped self = (refl, (messages self, refl))

-- The timeouts of a session are not counted from the last read: a client that has sent data between
-- any two timeouts, however often, is dropped with a Disconnected once more than ten timeouts, those
-- counted before included, have happened.
pub session-IsDropped :
    (rs : List Received) (self : TcpReceiveServer) (sock : TcpSocket) (num_timeouts : ℕ)
    → self.m_running ≡ true
    → valid sock ≡ true
    → num_timeouts ≤ max_num_timeouts
    → All IsAlive rs
    → max_num_timeouts < num_timeouts + count_timeouts rs
    → IsDropped (session self sock num_timeouts rs)
unfolding push_message
session-IsDropped [] self sock n run good h alive many = absurd (omega (arith, h, many))
session-IsDropped (received [] ∷ rs) self sock n run good h alive many = absurd alive.0
session-IsDropped (received (b ∷ buf) ∷ rs) self sock n run good h alive many =
    subst IsDropped (sym (data_session self sock rs n b buf (ap₂ ◌&&◌ run good) h))
      (session-IsDropped rs (push_message self (bytes (b ∷ buf))) sock n run good h alive.1 many)
session-IsDropped (interrupted ∷ rs) self sock n run good h alive many = absurd alive.0
session-IsDropped (error ∷ rs) self sock n run good h alive many = absurd alive.0
session-IsDropped (timeout ∷ rs) self sock n run good h alive many =
    elim (dec_lt n max_num_timeouts) [
      | yes more ↦ subst IsDropped (sym (timeout_session self sock rs n (ap₂ ◌&&◌ run good) more)) (
          session-IsDropped rs self sock (suc n) run good (omega (arith, more)) alive.1
            (omega (arith, many)))
      | no last ↦
          let at_last : n ≡ max_num_timeouts = omega (arith, h, last) in
          subst IsDropped
            (sym (
              ap (λ (k : ℕ). session self sock k (timeout ∷ rs)) at_last
              ∙ last_timeout self sock rs (ap₂ ◌&&◌ run good)))
            (dropped self)
    ]
