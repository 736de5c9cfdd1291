-- ===== src/ThreadsafeQueue/Overflow.antt =====
-- What the pushes of the thread-safe queue keep and drop.
use odr_source_companion.Base.{
  ℕ, suc, ◌-◌, min, ltb, ◌==◌, if◌then◌else◌, lt→ltb, le→ltb, Bool, true, false, List, [], ◌∷◌,
  ◌++◌, length, drop, length-append, length-drop, some, ◌≡◌, refl, arith,
}
use native.Mathlib.Decide.{dec_lt}
use odr_source_companion.ThreadsafeQueue.{ThreadsafeQueue, drop_oldest, push_overflow}

if_same : (b c : Bool) → (if b then c else c) ≡ c
if_same true c = refl
if_same false c = refl

overflows : (l n : ℕ) → (if ltb l (suc n) then false else true) ≡ ltb n l
overflows l n = ground arith

module _ {ℓ} {T : Type ℓ} where
  drop_oldest_lem :
      (n : ℕ) (xs : List T) (overflow : Bool)
      → drop_oldest xs (suc n) overflow
        ≡ (drop (length xs - n) xs, if ltb (length xs) (suc n) then overflow else true)
  unfolding drop_oldest
  drop_oldest_lem n [] overflow =
      let none_left : 0 - n ≡ 0 = omega arith in rw (none_left, lt→ltb 0 (suc n) (omega arith)) refl
  drop_oldest_lem n (x ∷ xs) overflow = elim (dec_lt (length (x ∷ xs)) (suc n)) [
    | yes h ↦
        let all_kept : length (x ∷ xs) - n ≡ 0 = omega (arith, h) in
        rw (all_kept, lt→ltb (length (x ∷ xs)) (suc n) h, drop_oldest) refl
    | no h ↦
        let one_more : length (x ∷ xs) - n ≡ suc (length xs - n) = omega (arith, h) in
        rw
          (
            one_more,
            le→ltb (length (x ∷ xs)) (suc n) (omega (arith, h)),
            drop_oldest_lem n xs true,
            if_same (ltb (length xs) (suc n)) true,
            drop_oldest,
          )
          refl
  ]

  -- With a limit of `n + 1` the queue keeps its newest `n` elements and the new one; it overflows
  -- just if it held more than `n`, and a requested wakeup stays.
  pub push_overflow_lem :
      (self : ThreadsafeQueue T) (val : T) (n : ℕ)
      → push_overflow self val (suc n)
        ≡ some (record {
          overflowed = ltb n (length self.the_queue);
          new_size = suc (min n (length self.the_queue));
          queue = record self {
            the_queue = drop (length self.the_queue - n) self.the_queue ++ val ∷ [];
          };
        })
  unfolding push_overflow
  push_overflow_lem self val n =
      let q = self.the_queue in
      let limited : (suc n == 0) ≡ false = ground arith in
      let newest = drop (length q - n) q in
      let count : length (newest ++ val ∷ []) ≡ suc (min n (length q)) =
        omega (arith, length-append newest (val ∷ []), length-drop (length q - n) q) in
      rw (limited, drop_oldest_lem n q false, overflows (length q) n, count) refl
