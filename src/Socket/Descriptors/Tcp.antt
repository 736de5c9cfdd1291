-- ===== src/Socket/Descriptors/Tcp.antt =====
-- The descriptors of a TCPSocket that connects or listens.
use odr_source_companion.Base.{
  ℕ, if◌then◌else◌, Bool, true, false, inl, inr, List, [], ◌∷◌, Option-cases, none, some, ◌≡◌, ◌⊎◌,
  refl, sym, subst,
}
use odr_source_companion.Socket.Descriptors.{
  Effect, Connecting, at_once, in_progress, poll_error, no_answer, refused, ConnectAddress,
  ListenAddress, throw_with, connected_to, after_connect, connect, listen,
}
use odr_source_companion.Socket.Descriptors.Udp.{close-open}

-- The socket has one new descriptor, the only one that is new.
abbrev pub IsConnected : List ℕ → Effect → Type 0
IsConnected fds e = (fd : ℕ) × (e.m_sock ≡ some fd) × (e.fds ≡ fd ∷ fds)

-- No new descriptor, and an invalid socket.
abbrev pub IsUnchanged : List ℕ → Effect → Type 0
IsUnchanged fds e = (e.m_sock ≡ none) × (e.fds ≡ fds)

abbrev pub IsClean : List ℕ → Effect → Type 0
IsClean fds e = (e.thrown ≡ false → IsConnected fds e) × (e.thrown ≡ true → IsUnchanged fds e)

abbrev pub IsListening : List ℕ → Effect → Type 0
IsListening fds e =
    (e.thrown ≡ false → IsConnected fds e)
    × (e.thrown ≡ true → IsUnchanged fds e ⊎ ((fd : ℕ) × (e.fds ≡ fd ∷ fds)))

if_both : (P : Effect → Type 0) (b : Bool) (x y : Effect) → P x → P y → P (if b then x else y)
if_both P true x y p q = p
if_both P false x y p q = q

connected-IsClean : (sfd : ℕ) (fds : List ℕ) → IsClean fds (connected_to sfd fds)
connected-IsClean sfd fds = (λ h. (sfd, refl, refl), λ h. cc)

thrown-IsClean : (fds : List ℕ) → IsClean fds (throw_with none fds)
thrown-IsClean fds = (λ h. cc, λ h. (refl, refl))

after_connect-IsClean :
    (c : Connecting) (sfd : ℕ) (fds : List ℕ) (rest : Effect)
    → IsClean fds rest
    → IsClean fds (after_connect c sfd fds rest)
unfolding after_connect
after_connect-IsClean at_once sfd fds rest h = connected-IsClean sfd fds
after_connect-IsClean (in_progress so_error) sfd fds rest h = connected-IsClean sfd fds
after_connect-IsClean poll_error sfd fds rest h = connected-IsClean sfd fds
after_connect-IsClean no_answer sfd fds rest h = connected-IsClean sfd fds
after_connect-IsClean refused sfd fds rest h = h

-- `connect` without a timeout, on an invalid socket and whatever the kernel does for each address:
-- when it returns, the socket's descriptor is the only one that is new; when it throws, no descriptor
-- is left open, and the socket is still invalid.
pub connect-IsClean :
    (nonblock : Bool) (result : List ConnectAddress) (fds : List ℕ)
    → IsClean fds (connect nonblock result fds)
unfolding connect
connect-IsClean nonblock [] fds = thrown-IsClean fds
connect-IsClean nonblock (rp ∷ result) fds = elim (Option-cases rp.socket) [
  | inl closed ↦ rw (closed, connect) (connect-IsClean nonblock result fds)
  | inr (sfd, opened) ↦
      let next =
        subst (λ (open_fds : List ℕ). IsClean fds (connect nonblock result open_fds))
          (sym (close-open sfd fds)) (connect-IsClean nonblock result fds) in
      let connects = after_connect-IsClean rp.connecting sfd fds _ next in
      rw (opened, connect)
        (if_both (IsClean fds) nonblock _ _
          (if_both (IsClean fds) rp.flags_set _ _ connects (
            subst (λ (open_fds : List ℕ). IsClean fds (throw_with none open_fds))
              (sym (close-open sfd fds)) (thrown-IsClean fds)))
          connects)
]

-- How a call that throws may leave the socket and the descriptors: as they were; with a closed
-- descriptor that the socket still names; or with an open one that no socket names.
abbrev pub IsThrown : List ℕ → Effect → Type 0
IsThrown fds e =
    IsUnchanged fds e
    ⊎ ((fd : ℕ) × (e.m_sock ≡ some fd) × (e.fds ≡ fds))
    ⊎ ((fd : ℕ) × (e.m_sock ≡ none) × (e.fds ≡ fd ∷ fds))

abbrev pub IsAccounted : List ℕ → Effect → Type 0
IsAccounted fds e = (e.thrown ≡ false → IsConnected fds e) × (e.thrown ≡ true → IsThrown fds e)

-- `listen`, on an invalid socket and whatever the kernel does for each address: when it returns, the
-- socket's descriptor is the only one that is new. When it throws, either all is as before; or one
-- descriptor is left open.
pub listen-IsListening :
    (result : List ListenAddress) (listens : Bool) (fds : List ℕ)
    → IsListening fds (listen result listens fds)
unfolding listen
listen-IsListening [] listens fds = (λ h. cc, λ h. inl (refl, refl))
listen-IsListening (rp ∷ result) listens fds = elim (Option-cases rp.socket) [
  | inl closed ↦ rw (closed, listen) (listen-IsListening result listens fds)
  | inr (sfd, opened) ↦
      let next =
        subst (λ (open_fds : List ℕ). IsListening fds (listen result listens open_fds))
          (sym (close-open sfd fds)) (listen-IsListening result listens fds) in
      rw (opened, listen)
        (if_both (IsListening fds) rp.reuse_set _ _
          (if_both (IsListening fds) rp.bind_succeeds _ _
            (if_both (IsListening fds) listens _ _ (λ h. (sfd, refl, refl), λ h. cc)
              (λ h. cc, λ h. inr (sfd, refl)))
            next)
          (λ h. cc, λ h. inr (sfd, refl)))
]
