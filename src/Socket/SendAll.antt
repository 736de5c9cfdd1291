-- ===== src/Socket/SendAll.antt =====
-- What sendall puts on the wire.
use odr_source_companion.Base.{
  ℕ, zero, suc, ◌≤◌, ◌<◌, ◌==◌, Bool-cases, ==_iff, inl, inr, List, [], ◌∷◌, ◌++◌, true, false,
  length, length-drop, take, drop, take-append-drop, append_assoc, append-nil, Option, some,
  Option-cases, ◌≡◌, refl, sym, ap, ◌∙◌, subst, arith,
}
use odr_source_companion.Socket.{SendResult, all_sent, send_failed, still_sending, sendall}

-- ::send takes at least one byte of those that it is given, and no more, or fails.
abbrev pub Takes : (ℕ → Option ℕ) → Type 0
Takes kernel = (asked sent : ℕ) → 0 < asked → kernel asked ≡ some sent → (0 < sent) × (sent ≤ asked)

-- What was taken is the whole of `due`, or all of `due` but a rest that is not empty.
abbrev pub Sent : List ℕ → SendResult → Type 0
Sent due (all_sent taken) = taken ≡ due
Sent due (send_failed taken) = (rest : List ℕ) × (taken ++ rest ≡ due) × (0 < length rest)
Sent due (still_sending taken) = ⊥

pub no_bytes : (buf : List ℕ) → (length buf == 0) ≡ true → buf ≡ []
no_bytes [] e = refl
no_bytes (b ∷ buf) e = absurd (let h : length (b ∷ buf) ≡ 0 = (==_iff _ 0).0 e in omega (arith, h))

pub some_bytes : (n : ℕ) → (n == 0) ≡ false → 0 < n
some_bytes n e = ground arith

sendall_at :
    (calls : ℕ) (kernel : ℕ → Option ℕ) (buf taken : List ℕ)
    → Takes kernel
    → length buf ≤ calls
    → Sent (taken ++ buf) (sendall calls kernel buf taken)
unfolding sendall
sendall_at zero kernel [] taken h enough = sym (append-nil taken)
sendall_at zero kernel (b ∷ buf) taken h enough = absurd (omega (arith, enough))
sendall_at (suc calls) kernel buf taken h enough = elim (Bool-cases (length buf == 0)) [
  | inl e ↦
      rw (e, sendall) (sym (ap (λ (l : List ℕ). taken ++ l) (no_bytes buf e) ∙ append-nil taken))
  | inr e ↦
      rw (e, sendall)
        (elim (Option-cases (kernel (length buf))) [
          | inl f ↦ rw (f, sendall) (buf, refl, some_bytes (length buf) e)
          | inr (sent, f) ↦
              let k = h (length buf) sent (some_bytes (length buf) e) f in
              let ih =
                sendall_at calls kernel (drop sent buf) (taken ++ take sent buf) h
                  (omega (arith, length-drop sent buf, enough, k.0, some_bytes (length buf) e)) in
              rw (f, sendall)
                (subst
                  (λ (due : List ℕ).
                    Sent due (sendall calls kernel (drop sent buf) (taken ++ take sent buf)))
                  (append_assoc taken (take sent buf) (drop sent buf)
                    ∙ ap (λ (l : List ℕ). taken ++ l) (take-append-drop sent buf))
                  ih)
        ])
]

-- Where each ::send takes at least one byte of those that it is given, or fails, `sendall` ends
-- after at most as many calls as the buffer has bytes. It returns 0 when all bytes were taken, in
-- order; when it returns -1, a beginning of the buffer was taken, and at least one byte was not.
pub sendall-Sent :
    (kernel : ℕ → Option ℕ) (buf : List ℕ)
    → Takes kernel
    → Sent buf (sendall (length buf) kernel buf [])
sendall-Sent kernel buf h =
    sendall_at (length buf) kernel buf [] h (let e : length buf ≤ length buf = omega arith in e)
