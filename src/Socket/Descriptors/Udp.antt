-- ===== src/Socket/Descriptors/Udp.antt =====
-- The descriptors of a UDPSocket.
use odr_source_companion.Base.{
  ℕ, ◌==◌, ==_iff, if_true, if_false, true, false, Bool-cases, inl, inr, List, [], ◌∷◌, Option,
  Option-cases, none, some, ◌≡◌, refl, sym, ap, ◌∙◌, subst,
}
use odr_source_companion.Socket.Descriptors.{
  os_close, close_valid, Effect, BindAddress, bind_first, reinit_bound, reinit,
}

-- The open descriptors with that of a socket.
abbrev pub with_socket : Option ℕ → List ℕ → List ℕ
with_socket none fds = fds
with_socket (some fd) fds = fd ∷ fds

pub close-open : (fd : ℕ) (fds : List ℕ) → os_close fd (fd ∷ fds) ≡ fds
unfolding os_close
close-open fd fds = if_true (fd == fd) fds _ ((==_iff fd fd).1 refl)

-- What `reinit` leaves: the old descriptor is closed. When it returns, the socket's descriptor is
-- the only one that is new. When it throws, none is, and the socket keeps the closed one.
abbrev pub IsRebound : Option ℕ → List ℕ → Effect → Type 0
IsRebound m_sock fds e =
    (e.thrown ≡ false → e.fds ≡ with_socket e.m_sock (close_valid m_sock fds))
    × (e.thrown ≡ true → (e.fds ≡ close_valid m_sock fds) × (e.m_sock ≡ m_sock))

bind_first-fds :
    (result : List BindAddress) (fds : List ℕ)
    → (bind_first result fds).1 ≡ with_socket (bind_first result fds).0 fds
unfolding bind_first
bind_first-fds [] fds = refl
bind_first-fds (rp ∷ result) fds = elim (Option-cases rp.socket) [
  | inl closed ↦ rw (closed, bind_first) (bind_first-fds result fds)
  | inr (sfd, opened) ↦ elim (Bool-cases rp.bind_succeeds) [
    | inl bound ↦ rw (opened, bound, bind_first) refl
    | inr failed ↦
        rw (opened, failed, bind_first)
          (bind_first-fds result (os_close sfd (sfd ∷ fds))
            ∙ ap (with_socket (bind_first result (os_close sfd (sfd ∷ fds))).0)
                (close-open sfd fds))
  ]
]

reinit_bound-IsRebound :
    (m_sock : Option ℕ) (fds : List ℕ) (bound : Option ℕ) (fds' : List ℕ)
    → fds' ≡ with_socket bound (close_valid m_sock fds)
    → IsRebound m_sock fds (reinit_bound m_sock (bound, fds'))
unfolding reinit_bound
reinit_bound-IsRebound m_sock fds none fds' e = (λ h. cc, λ h. (e, refl))
reinit_bound-IsRebound m_sock fds (some fd) fds' e = (λ h. e, λ h. cc)

plain-IsRebound :
    (m_sock : Option ℕ) (fds : List ℕ) (plain : Option ℕ)
    → IsRebound m_sock fds (elim plain as (λ x. Effect) [
      | none ↦ record { m_sock = none; fds = close_valid m_sock fds; thrown = false }
      | some sfd ↦ record { m_sock = some sfd; fds = sfd ∷ close_valid m_sock fds; thrown = false }
    ])
plain-IsRebound m_sock fds none = (λ h. refl, λ h. cc)
plain-IsRebound m_sock fds (some sfd) = (λ h. refl, λ h. cc)

found-IsRebound :
    (m_sock : Option ℕ) (fds : List ℕ) (result : Option (List BindAddress))
    → IsRebound m_sock fds (elim result as (λ x. Effect) [
      | none ↦ record { m_sock = m_sock; fds = close_valid m_sock fds; thrown = true }
      | some addresses ↦ reinit_bound m_sock (bind_first addresses (close_valid m_sock fds))
    ])
found-IsRebound m_sock fds none = (λ h. cc, λ h. (refl, refl))
found-IsRebound m_sock fds (some addresses) =
    let r = bind_first addresses (close_valid m_sock fds) in
    reinit_bound-IsRebound m_sock fds r.0 r.1 (bind_first-fds addresses (close_valid m_sock fds))

-- `reinit`, whatever the kernel and getaddrinfo return, closes the socket's old descriptor. When it
-- returns, the descriptor that the socket names is the only one that it has opened, for the port 0
-- too; when it throws, it has opened none that is still open, and the socket names the closed one.
pub reinit-IsRebound :
    (m_sock : Option ℕ) (fds : List ℕ) (port : ℕ) (plain : Option ℕ)
    (result : Option (List BindAddress))
    → IsRebound m_sock fds (reinit m_sock fds port plain result)
unfolding reinit
reinit-IsRebound m_sock fds port plain result = elim (Bool-cases (port == 0)) [
  | inl unbound ↦
      subst (IsRebound m_sock fds) (sym (if_true (port == 0) _ _ unbound))
        (plain-IsRebound m_sock fds plain)
  | inr bound ↦
      subst (IsRebound m_sock fds) (sym (if_false (port == 0) _ _ bound))
        (found-IsRebound m_sock fds result)
]
