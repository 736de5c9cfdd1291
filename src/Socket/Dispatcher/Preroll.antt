-- ===== src/Socket/Dispatcher/Preroll.antt =====
-- The preroll of TCPDataDispatcher.
use odr_source_companion.Base.{
  ℕ, zero, suc, ◌-◌, ◌≤◌, ltb, lt→ltb, le→ltb, if_true, if_false, true, List, [], ◌∷◌, ◌++◌, length,
  length-append, length-drop, drop, ◌≡◌, refl, sym, ap, ◌∙◌, arith,
}
use native.Mathlib.Decide.{dec_lt}
use odr_source_companion.Socket.Connection.{Buffer}
use odr_source_companion.Socket.Dispatcher.{keep_preroll}

-- The last `n` elements, or all of them.
abbrev pub last_of {ℓ} : {A : Type ℓ} → ℕ → List A → List A
last_of n xs = drop (length xs - n) xs

drop_more {ℓ} :
    {A : Type ℓ} (k : ℕ) (xs ys : List A) → k ≤ length xs → drop k (xs ++ ys) ≡ drop k xs ++ ys
drop_more zero xs ys h = refl
drop_more (suc k) [] ys h = absurd (omega (arith, h))
drop_more (suc k) (x ∷ xs) ys h = drop_more k xs ys (omega (arith, h))

pub length-last_of {ℓ} : {A : Type ℓ} (n : ℕ) (xs : List A) → length (last_of n xs) ≤ n
length-last_of n xs = omega (arith, length-drop (length xs - n) xs)

-- The preroll queue never holds more than `m_buffers_to_preroll` buffers, and is the last of those
-- that it held and the new one.
pub keep_preroll_lem :
    (n : ℕ) (queue : List Buffer) (buf : Buffer)
    → length queue ≤ n
    → keep_preroll n queue buf ≡ last_of n (queue ++ buf ∷ [])
unfolding keep_preroll
keep_preroll_lem zero [] buf h = refl
keep_preroll_lem zero (x ∷ queue) buf h = absurd (omega (arith, h))
keep_preroll_lem (suc n) queue buf h =
    let more = length-append queue (buf ∷ []) in
    let positive : ltb 0 (suc n) ≡ true = lt→ltb 0 (suc n) (omega arith) in
    elim (dec_lt (suc n) (length (queue ++ buf ∷ []))) [
      | yes long ↦
          let one : length (queue ++ buf ∷ []) - suc n ≡ 1 = omega (arith, more, h, long) in
          if_true _ _ _ positive
          ∙ if_true _ _ _ (lt→ltb (suc n) (length (queue ++ buf ∷ [])) long)
          ∙ ap (λ (k : ℕ). drop k (queue ++ buf ∷ [])) (sym one)
      | no short ↦
          let all : length (queue ++ buf ∷ []) - suc n ≡ 0 = omega (arith, short) in
          if_true _ _ _ positive
          ∙ if_false _ _ _ (le→ltb (suc n) (length (queue ++ buf ∷ [])) (omega (arith, short)))
          ∙ ap (λ (k : ℕ). drop k (queue ++ buf ∷ [])) (sym all)
    ]
