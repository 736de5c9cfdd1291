-- ===== src/Edi/Pft/Sizes.antt =====
-- CEIL_DIV and the sizes that the PFT layer computes with it.
use odr_source_companion.Base.{
  ℕ, zero, suc, ◌+◌, ◌-◌, ◌*◌, ◌/◌, ◌%◌, ◌≤◌, ◌<◌, ◌==◌, ◌≡◌, refl, ap, arith, false,
}
use native.Mathlib.Nat.{div-add-mod, mod-lt, le_of_mul-le-mul_right, lt_of_mul-lt-mul_right}
use native.Mathlib.Decide.{ℕ_discrete, dec_lt}
use odr_source_companion.Edi.Result.{ok}
use odr_source_companion.Edi.Pft.{ceil_div}

-- `c` is the least number of pieces of size `b` that hold `a`.
pub record IsCeil (a b c : ℕ) : Type 0 where
  pub covers : a ≤ c * b
  pub least : (n : ℕ) → a ≤ n * b → c ≤ n

-- CEIL_DIV rounds a quotient up.
pub ceil_div-IsCeil : (a b : ℕ) → 0 < b → (c : ℕ) × (ceil_div a b ≡ ok c) × IsCeil a b c
unfolding ceil_div
ceil_div-IsCeil a b h =
    let parts = div-add-mod a b in
    let below = mod-lt a h in
    let nonzero : (b == 0) ≡ false = ground arith in
    elim (ℕ_discrete (a % b) 0) [
      | yes exact ↦ (
        a / b,
        rw (nonzero, exact) refl,
        record {
          covers = omega (arith, parts);
          least = λ n e. le_of_mul-le-mul_right (parts_le n e) h;
        },
      )
      | no rest ↦
          let nonzero_rest : (a % b == 0) ≡ false = ground arith in
          (
            a / b + 1,
            rw (nonzero, nonzero_rest) refl,
            record {
              covers = omega (arith, parts);
              least = λ n e. next_le (omega (arith, rest)) n e;
            },
          )
    ]
  where
    parts_le : (n : ℕ) → a ≤ n * b → a / b * b ≤ n * b
    parts_le n e = omega (arith, div-add-mod a b)

    next_le : 0 < a % b → (n : ℕ) → a ≤ n * b → a / b + 1 ≤ n
    next_le pos n e =
        let less : a / b * b < n * b = omega (arith, div-add-mod a b) in
        let lt = lt_of_mul-lt-mul_right b {m = a / b} {n = n} less in omega (arith, lt)

pub IsCeil-unique : {a b c d : ℕ} → IsCeil a b c → IsCeil a b d → c ≡ d
IsCeil-unique {a} {b} {c} {d} i j = omega (arith, i.least d j.covers, j.least c i.covers)

-- Something to cut gives a piece at least.
pub IsCeil-pos : {a b c : ℕ} → IsCeil a b c → 0 < a → 0 < c
IsCeil-pos {a} {b} {c} i h = elim (ℕ_discrete c 0) [
  | yes e ↦ absurd (omega (arith, i.covers, ap (λ (t : ℕ). t * b) e))
  | no ne ↦ omega arith
]

-- Pieces of the least size leave less over than there are pieces.
pub IsCeil-below : {l n k : ℕ} → 0 < n → 0 < k → IsCeil l n k → n * k - l < n
IsCeil-below {k = zero} n_pos k_pos i = absurd (omega arith)
IsCeil-below {l} {n} {k = suc k} n_pos k_pos i = elim (dec_lt (n * suc k - l) n) [
  | yes h ↦ h
  | no h ↦ let smaller = i.least k (omega arith) in absurd (omega (arith, smaller))
]
