-- ===== src/Companion/PadFill.antt =====
-- The loop that fills the queue of PAD frames ends, and keeps to the queue's limit.
use odr_source_companion.Base.{
  ℕ, zero, suc, ◌+◌, ◌-◌, ◌<◌, ◌≤◌, ltb, ◌==◌, not, Bool-cases, inl, inr, ◌⊎◌, List, [], ◌∷◌,
  length, length-append, take, drop, get_or, if_true, if_false, ◌≡◌, ◌≢◌, ==_iff, ltb→lt, refl, ap,
  sym, ◌∙◌, subst, arith,
}
use mathlib.Core.List.{reverse}
use odr_source_companion.AvtInput.{AvtInput}
use odr_source_companion.AvtInput.Pad.{push_pad_frame, pad_queue_full}
use odr_source_companion.PadInterface.{
  SendOutcome, Reception, datagram, receive_failed, PadInterface, PadFailure, Reply, throws,
  returns, send_to, receive, request,
}
use odr_source_companion.Companion.{
  PadLoop, threw, wrong_pointer, filled, take_pad, after_push, after_reply, fill_pad,
}

-- A reply that is not empty took a reception.
data Consumes (n : ℕ) : Reply → Type 0 where
  thrown : (failure : PadFailure) → Consumes n (throws failure)
  replied :
      (pad_data : List ℕ) (after : PadInterface)
      → (length pad_data ≡ 0) ⊎ (length after.receptions < n)
      → Consumes n (returns pad_data after)

Consumes-weaken : (n : ℕ) (r : Reply) → Consumes n r → Consumes (suc n) r
Consumes-weaken n _ (thrown failure) = thrown failure
Consumes-weaken n _ (replied pad_data after (inl e)) = replied pad_data after (inl e)
Consumes-weaken n _ (replied pad_data after (inr lt)) =
    replied pad_data after (inr (omega (arith, lt)))

receive-Consumes :
    (self : PadInterface) (size : ℕ) (rs : List Reception)
    → Consumes (length rs) (receive self size rs)
unfolding receive
receive-Consumes self size [] = replied [] (record self { receptions = [] }) (inl refl)
receive-Consumes self size (receive_failed ∷ rs) = thrown _
receive-Consumes self size (datagram bytes ∷ rs) =
    let buffer = take size bytes in
    let again =
      Consumes-weaken (length rs) (receive self size rs) (receive-Consumes self size rs) in
    let shorter =
      Consumes-weaken (length rs) (receive self (length buffer) rs)
        (receive-Consumes self (length buffer) rs) in
    let P = Consumes (suc (length rs)) in
    elim (Bool-cases (length buffer == 0)) [
      | inl e ↦ subst P (sym (if_true (length buffer == 0) _ _ e)) again
      | inr e ↦ elim (Bool-cases (get_or buffer 0 0 == 2)) [
        | inl t ↦
            subst P
              (sym (if_false (length buffer == 0) _ _ e ∙ if_true (get_or buffer 0 0 == 2) _ _ t))
              (replied (drop 1 buffer) (record self { receptions = rs }) (inr (omega arith)))
        | inr t ↦
            subst P
              (sym (if_false (length buffer == 0) _ _ e ∙ if_false (get_or buffer 0 0 == 2) _ _ t))
              shorter
      ]
    ]

request-Consumes :
    (self : PadInterface) (padlen : ℕ) → Consumes (length self.receptions) (request self padlen)
unfolding request
request-Consumes self padlen = elim (Bool-cases (length self.m_pad_ident == 0)) [
  | inl e ↦
      subst (Consumes (length self.receptions)) (sym (if_true (length self.m_pad_ident == 0) _ _ e))
        (thrown _)
  | inr e ↦
      subst (Consumes (length self.receptions))
        (sym (if_false (length self.m_pad_ident == 0) _ _ e)) (go self.outcomes)
]
  where
    go :
        (outcomes : List SendOutcome)
        → Consumes (length self.receptions) (
            receive
              (send_to self (1 ∷ padlen ∷ []) outcomes)
              2048
              (send_to self (1 ∷ padlen ∷ []) outcomes).receptions)
    go [] = receive-Consumes (send_to self (1 ∷ padlen ∷ []) []) 2048 self.receptions
    go (o ∷ os) = receive-Consumes (send_to self (1 ∷ padlen ∷ []) (o ∷ os)) 2048 self.receptions

-- The frame in a reply: the last byte of the reply is its size, and it ends in front of this byte.
abbrev pub pad_frame : List ℕ → ℕ → List ℕ
pad_frame pad_data padlen =
    let size = get_or pad_data padlen 0 in take size (drop (padlen - size) pad_data)

-- How the loop goes from an interface and an input, and what it ends with: with a queue of six
-- frames; or, below that, with a reply that is empty or of a wrong size, with the exception of the
-- request, or with a size in the reply that leads in front of it; or it pushes the frame of a good
-- reply and goes on.
pub data Ends (padlen : ℕ) : PadInterface → AvtInput → PadLoop → Type 0 where
  by_full :
      {pad_intf : PadInterface} {avtinput : AvtInput}
      → length avtinput.pad_frame_queue ≡ 6
      → Ends padlen pad_intf avtinput (filled pad_intf avtinput)
  by_reply :
      {pad_intf after : PadInterface} {avtinput : AvtInput} (pad_data : List ℕ)
      → length avtinput.pad_frame_queue < 6
      → request pad_intf padlen ≡ returns pad_data after
      → (length pad_data ≡ 0) ⊎ (length pad_data ≢ padlen + 1)
      → Ends padlen pad_intf avtinput (filled after avtinput)
  by_exception :
      {pad_intf : PadInterface} {avtinput : AvtInput} (failure : PadFailure)
      → length avtinput.pad_frame_queue < 6
      → request pad_intf padlen ≡ throws failure
      → Ends padlen pad_intf avtinput (threw failure)
  by_pointer :
      {pad_intf after : PadInterface} {avtinput : AvtInput} (pad_data : List ℕ)
      → length avtinput.pad_frame_queue < 6
      → request pad_intf padlen ≡ returns pad_data after
      → length pad_data ≡ padlen + 1
      → padlen < get_or pad_data padlen 0
      → Ends padlen pad_intf avtinput wrong_pointer
  pushes :
      {pad_intf after : PadInterface} {avtinput : AvtInput} {last : PadLoop} (pad_data : List ℕ)
      → length avtinput.pad_frame_queue < 6
      → request pad_intf padlen ≡ returns pad_data after
      → length pad_data ≡ padlen + 1
      → get_or pad_data padlen 0 ≤ padlen
      → Ends padlen after (push_pad_frame avtinput (pad_frame pad_data padlen)) last
      → Ends padlen pad_intf avtinput last

length-push_pad_frame :
    (self : AvtInput) (buf : List ℕ)
    → length (push_pad_frame self buf).pad_frame_queue ≤ suc (length self.pad_frame_queue)
unfolding push_pad_frame
length-push_pad_frame self buf = elim (Bool-cases (self.pad_port == 0)) [
  | inl e ↦ rw (e, push_pad_frame) (omega arith)
  | inr e ↦ elim (Bool-cases (ltb 0 (length buf))) [
    | inl f ↦
        rw (e, f, push_pad_frame)
          (omega (arith, length-append self.pad_frame_queue (reverse buf ∷ [])))
    | inr f ↦ rw (e, f, push_pad_frame) (omega arith)
  ]
]

-- What happens after a reply ends, if the rounds to come do.
after_reply-Ends :
    (continue : PadInterface → AvtInput → PadLoop) (pad_intf : PadInterface) (avtinput : AvtInput)
    (padlen n : ℕ) (reply : Reply)
    → ((after : PadInterface) (avtinput' : AvtInput)
        → length after.receptions < n
        → length avtinput'.pad_frame_queue ≤ 6
        → Ends padlen after avtinput' (continue after avtinput'))
    → length avtinput.pad_frame_queue < 6
    → Consumes n reply
    → request pad_intf padlen ≡ reply
    → Ends padlen pad_intf avtinput (after_reply continue avtinput padlen reply)
unfolding take_pad
after_reply-Ends continue pad_intf avtinput padlen n _ later room (thrown failure) asked =
    by_exception failure room asked
after_reply-Ends continue pad_intf avtinput padlen n _ later room (replied pad_data after taken)
      asked =
    let End = Ends padlen pad_intf avtinput in
    elim (Bool-cases (length pad_data == 0)) [
      | inl e ↦
          subst End (sym (if_true (length pad_data == 0) _ _ e))
            (by_reply pad_data room asked (inl ((==_iff _ _).0 e)))
      | inr e ↦ elim (Bool-cases (length pad_data == padlen + 1)) [
        | inr f ↦
            subst End
              (sym (
                if_false (length pad_data == 0) _ _ e
                ∙ if_false (length pad_data == padlen + 1) _ _ f))
              (by_reply pad_data room asked (inr (λ g. ground (arith, f, g))))
        | inl f ↦
            let fewer : length after.receptions < n = ground (arith, e, taken) in
            subst End
              (sym (
                if_false (length pad_data == 0) _ _ e
                ∙ if_true (length pad_data == padlen + 1) _ _ f))
              (taken_in fewer ((==_iff _ _).0 f))
      ]
    ]
  where
    taken_in :
        length after.receptions < n
        → length pad_data ≡ padlen + 1
        → Ends padlen pad_intf avtinput
            (after_push (continue after) (take_pad avtinput padlen pad_data))
    taken_in fewer whole =
        let size = get_or pad_data padlen 0 in
        let frame = pad_frame pad_data padlen in
        elim (Bool-cases (ltb padlen size)) [
          | inl e ↦
              subst (λ o. Ends padlen pad_intf avtinput (after_push (continue after) o))
                (sym (if_true (ltb padlen size) _ _ e))
                (by_pointer pad_data room asked whole (ltb→lt padlen size e))
          | inr e ↦
              subst (λ o. Ends padlen pad_intf avtinput (after_push (continue after) o))
                (sym (if_false (ltb padlen size) _ _ e))
                (pushes pad_data room asked whole (ground (arith, e)) (
                  later after (push_pad_frame avtinput frame) fewer
                    (omega (arith, length-push_pad_frame avtinput frame, room))))
        ]

-- The loop ends after a round for each datagram that waits and one more. Each round but the last
-- pushes the frame of a reply of the right size. The last one finds six frames in the queue, or gets
-- an empty reply or one of a wrong size, or the exception of the request, or reads a frame's size
-- that leads in front of the reply. The queue never holds more than six frames.
pub fill_pad-Ends :
    (fuel : ℕ) (pad_intf : PadInterface) (avtinput : AvtInput) (padlen : ℕ)
    → length pad_intf.receptions < fuel
    → length avtinput.pad_frame_queue ≤ 6
    → Ends padlen pad_intf avtinput (fill_pad fuel pad_intf avtinput padlen)
unfolding fill_pad
fill_pad-Ends zero pad_intf avtinput padlen enough few = absurd (omega arith)
fill_pad-Ends (suc fuel) pad_intf avtinput padlen enough few =
    let full = pad_queue_full avtinput in
    let End = Ends padlen pad_intf avtinput in
    elim (Bool-cases full) [
      | inl e ↦
          subst End (sym (if_false (not full) _ _ (ap not e))) (by_full (ground (arith, e, few)))
      | inr e ↦
          let room : length avtinput.pad_frame_queue < 6 = ground (arith, e) in
          subst End (sym (if_true (not full) _ _ (ap not e))) (
            after_reply-Ends (λ after avtinput'. fill_pad fuel after avtinput' padlen) pad_intf
              avtinput padlen (length pad_intf.receptions) (request pad_intf padlen)
              (λ after avtinput' fewer few'.
                fill_pad-Ends fuel after avtinput' padlen (omega (arith, fewer, enough)) few')
              room (request-Consumes pad_intf padlen) refl)
    ]
