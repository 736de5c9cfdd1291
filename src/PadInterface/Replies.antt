-- ===== src/PadInterface/Replies.antt =====
-- The replies of ODR-PadEnc among other datagrams.
use odr_source_companion.Base.{
  ℕ, zero, suc, ◌<◌, ◌≤◌, ◌==◌, false, List, [], ◌∷◌, ◌++◌, map, length, length-take, take,
  take-all, drop, get_or, All, if_false, ◌≡◌, ◌≢◌, refl, ap, ◌∙◌, arith,
}
use odr_source_companion.PadInterface.{
  SendOutcome, Reception, datagram, PadInterface, returns, receive, request, send_to,
}

-- A datagram of another type.
abbrev pub IsOther : List ℕ → Type 0
IsOther bytes = (0 < length bytes) × (get_or bytes 0 0 ≢ 2)

-- The buffer's size after other datagrams: that of the shortest.
abbrev pub size_after : ℕ → List (List ℕ) → ℕ
size_after size [] = size
size_after size (bytes ∷ others) = size_after (length (take size bytes)) others

positive : (n : ℕ) → (suc n == 0) ≡ false
positive n = ground arith

receive-other :
    (self : PadInterface) (size : ℕ) (others : List (List ℕ)) (payload : List ℕ)
    (rest : List Reception)
    → 0 < size
    → All IsOther others
    → receive self size (map datagram others ++ datagram (2 ∷ payload) ∷ rest)
      ≡ returns
          (drop 1 (take (size_after size others) (2 ∷ payload)))
          (record self { receptions = rest })
unfolding receive
receive-other self zero others payload rest pos h = absurd (omega arith)
receive-other self (suc k) [] payload rest pos h =
    if_false (suc (length (take k payload)) == 0) _ _ (positive (length (take k payload)))
receive-other self (suc k) ([] ∷ others) payload rest pos h =
    absurd (let lt = h.0.0 in omega (arith, lt))
receive-other self (suc k) ((x ∷ xs) ∷ others) payload rest pos h =
    let other : (x == 2) ≡ false = ground (arith, h.0.1) in
    let shorter =
      receive-other self (suc (length (take k xs))) others payload rest (omega arith) h.1 in
    if_false (suc (length (take k xs)) == 0) _ _ (positive (length (take k xs)))
    ∙ if_false (x == 2) _ _ other
    ∙ shorter

size_after-long :
    (n size : ℕ) (others : List (List ℕ))
    → n ≤ size
    → All (λ bytes. n ≤ length bytes) others
    → n ≤ size_after size others
size_after-long n size [] h a = h
size_after-long n size (bytes ∷ others) h a =
    size_after-long n (length (take size bytes)) others
      (omega (arith, length-take {0} size bytes, h, a.0)) a.1

-- An open interface, whose socket has datagrams of other types, none of them empty, and then a
-- reply: `request` sends the PAD length, if there is somebody to send it to, drops the datagrams and
-- returns the bytes of the reply. It keeps as many as the shortest datagram had, the reply's type
-- counted, and 2047 at most.
pub request-reply :
    (self : PadInterface) (padlen : ℕ) (others : List (List ℕ)) (payload : List ℕ)
    (rest : List Reception)
    → 0 < length self.m_pad_ident
    → self.receptions ≡ map datagram others ++ datagram (2 ∷ payload) ∷ rest
    → All IsOther others
    → request self padlen
      ≡ returns
          (drop 1 (take (size_after 2048 others) (2 ∷ payload)))
          (record (send_to self (1 ∷ padlen ∷ []) self.outcomes) { receptions = rest })
unfolding request
request-reply self padlen others payload rest is_open waiting h =
    let sent = send_to self (1 ∷ padlen ∷ []) self.outcomes in
    let closed : (length self.m_pad_ident == 0) ≡ false = ground (arith, is_open) in
    if_false (length self.m_pad_ident == 0) _ _ closed
    ∙ ap (receive sent 2048) (same self.outcomes ∙ waiting)
    ∙ receive-other sent 2048 others payload rest (omega arith) h
  where
    same :
        (outcomes : List SendOutcome)
        → (send_to self (1 ∷ padlen ∷ []) outcomes).receptions ≡ self.receptions
    same [] = refl
    same (o ∷ os) = refl

-- All bytes, if the reply has 2048 at most and no datagram before it is shorter.
pub request-whole :
    (self : PadInterface) (padlen : ℕ) (others : List (List ℕ)) (payload : List ℕ)
    (rest : List Reception)
    → 0 < length self.m_pad_ident
    → self.receptions ≡ map datagram others ++ datagram (2 ∷ payload) ∷ rest
    → All IsOther others
    → suc (length payload) ≤ 2048
    → All (λ bytes. suc (length payload) ≤ length bytes) others
    → request self padlen
      ≡ returns payload
          (record (send_to self (1 ∷ padlen ∷ []) self.outcomes) { receptions = rest })
request-whole self padlen others payload rest is_open waiting h small long =
    let sent = send_to self (1 ∷ padlen ∷ []) self.outcomes in
    let enough = size_after-long (suc (length payload)) 2048 others small long in
    request-reply self padlen others payload rest is_open waiting h
    ∙ ap (λ (bytes : List ℕ). returns (drop 1 bytes) (record sent { receptions = rest }))
        (take-all (size_after 2048 others) (2 ∷ payload) enough)
