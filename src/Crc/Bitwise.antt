-- ===== src/Crc/Bitwise.antt =====
-- What a CRC is, bit by bit: the independent description that the tables of lib/crc.c are held to.
-- The register has `suc top` bits and shifts left; `poly` is the polynomial without its top term.
use odr_source_companion.Base.{
  ℕ, zero, suc, ◌+◌, ◌-◌, ◌*◌, ◌/◌, ◌^◌, ◌≤◌, ◌<◌, bit_xor, ltb, if◌then◌else◌, lt→ltb, le→ltb,
  false, List, [], ◌∷◌, ◌≡◌, sym, ap, ◌∙◌, arith, ap₂,
}
use odr_source_companion.Base.Bits.{
  bit_xor_lowest, bit_xor_fields, bit_xor-lt, bit_xor_assoc, bit_xor_comm,
}
use native.Mathlib.Nat.{pow-suc, one-le-pow}
use native.Mathlib.Decide.{dec_lt}

module _ (top poly : ℕ) where
  unfoldable pub bit_step : ℕ → ℕ
  bit_step x = if ltb x (2 ^ top) then 2 * x else bit_xor (2 * x - 2 ^ suc top) poly

  unfoldable pub bit_steps : ℕ → ℕ → ℕ
  unfolding bit_step
  bit_steps zero x = x
  bit_steps (suc n) x = bit_steps n (bit_step x)

  -- A byte enters at the top of the register, which then shifts eight times.
  unfoldable pub bitwise_crc : ℕ → List ℕ → ℕ
  unfolding bit_steps
  bitwise_crc crc [] = crc
  bitwise_crc crc (b ∷ bs) = bitwise_crc (bit_steps 8 (bit_xor crc (b * 2 ^ (suc top - 8)))) bs

  module _ (poly_fits : poly < 2 ^ suc top) where
    pub bit_step-lt : (x : ℕ) → x < 2 ^ suc top → bit_step x < 2 ^ suc top
    unfolding bit_step
    bit_step-lt x h = ground (arith, pow-suc 2 top, bit_xor-lt (suc top) (2 * x - 2 ^ suc top) poly)

    pub bit_steps-lt : (n x : ℕ) → x < 2 ^ suc top → bit_steps n x < 2 ^ suc top
    unfolding bit_steps
    bit_steps-lt zero x h = h
    bit_steps-lt (suc n) x h = bit_steps-lt n (bit_step x) (bit_step-lt x h)

  double-xor : (a b : ℕ) → bit_xor (2 * a) (2 * b) ≡ 2 * bit_xor a b
  double-xor a b =
      let left : 2 * a / 2 ≡ a = omega arith in
      let right : 2 * b / 2 ≡ b = omega arith in
      omega (arith, bit_xor_lowest (2 * a) (2 * b), ap₂ bit_xor left right)

  -- Bits that stay below the top of the register are shifted and nothing else.
  bit_step-xor :
      (x y : ℕ)
      → x < 2 ^ suc top
      → y < 2 ^ top
      → bit_step (bit_xor x y) ≡ bit_xor (bit_step x) (2 * y)
  unfolding bit_step
  bit_step-xor x y hx hy = elim (dec_lt x (2 ^ top)) [
    | yes low ↦
        rw (lt→ltb x (2 ^ top) low, lt→ltb _ (2 ^ top) (bit_xor-lt top x y low hy))
          (sym (double-xor x y))
    | no high ↦
        let r : ℕ = x - 2 ^ top in
        let r_fits : r < 2 ^ top = omega (arith, pow-suc 2 top) in
        let split : bit_xor x y ≡ 2 ^ top + bit_xor r y =
          ap₂ bit_xor (let e : x ≡ 1 * 2 ^ top + r = omega arith in e)
            (let e : y ≡ 0 * 2 ^ top + y = omega arith in e)
          ∙ bit_xor_fields top 1 r 0 y r_fits hy
          ∙ omega arith in
        let cut : 2 * bit_xor x y - 2 ^ suc top ≡ 2 * bit_xor r y =
          omega (arith, split, pow-suc 2 top) in
        let cut' : 2 * x - 2 ^ suc top ≡ 2 * r = omega (arith, pow-suc 2 top) in
        let test : ltb (bit_xor x y) (2 ^ top) ≡ false = le→ltb _ _ (omega (arith, split)) in
        let test' : ltb x (2 ^ top) ≡ false = le→ltb _ _ (omega arith) in
        rw (test, test', cut, cut', ← double-xor r y, bit_xor_assoc)
          (rw (bit_xor_comm (2 * y) poly) (sym (bit_xor_assoc (2 * (x - 2 ^ top)) poly (2 * y))))
  ]

  -- So a low part passes through `n` shifts untouched, as long as it does not reach the top.
  pub bit_steps-xor :
      (n x y : ℕ)
      → poly < 2 ^ suc top
      → x < 2 ^ suc top
      → y * 2 ^ n < 2 ^ suc top
      → bit_steps n (bit_xor x y) ≡ bit_xor (bit_steps n x) (y * 2 ^ n)
  unfolding bit_steps
  bit_steps-xor zero x y p hx hy = ap (bit_xor x) (omega arith)
  bit_steps-xor (suc n) x y p hx hy =
      let double : y * 2 ^ suc n ≡ 2 * y * 2 ^ n =
        omega (arith, ap (λ (t : ℕ). y * t) (pow-suc 2 n)) in
      let grows : y ≤ y * 2 ^ n = grind (arith, one-le-pow n 2 (omega arith)) in
      let low : y < 2 ^ top = omega (arith, pow-suc 2 top) in
      rw (bit_step-xor x y hx low, double)
        (bit_steps-xor n (bit_step x) (2 * y) p (bit_step-lt p x hx) (rw (← double) hy))
