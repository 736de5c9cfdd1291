-- ===== src/Base/Bits.antt =====
-- Laws of `|`, `&` and `^` at variables, from one equation for the lowest binary digit.
use Prim.Native.Nat.{
  ℕ, zero, suc, ◌+◌, ◌*◌, ◌/◌, ◌%◌, ◌^◌, ◌≤◌, ◌<◌, max, min, digits, bitwise, differ,
}
use Prim.Native.Nat.{bit_and, bit_or, bit_xor, bit_and-bitwise, bit_or-bitwise, bit_xor-bitwise}
use mathlib.Core.Path.{◌≡◌, refl, sym, ap, ap₂, ◌∙◌}
use native.Mathlib.Nat.{le_refl, pow-suc, div-add-mod, mod-lt, mod-eq_of_lt, mul-add-mod_self_right}
use native.Mathlib.Omega.{arith}

-- The fuel of the digit recursion does not matter once it covers the left operand.
module _ (z : ℕ → ℕ) (f : ℕ → ℕ → ℕ) where
  digits_any_fuel : (n m a b : ℕ) → a ≤ n → a ≤ m → digits z f n a b ≡ digits z f m a b
  digits_any_fuel zero zero zero b p q = refl
  digits_any_fuel zero zero (suc a) b p q = refl
  digits_any_fuel zero (suc m) zero b p q = refl
  digits_any_fuel zero (suc m) (suc a) b p q = absurd (omega arith)
  digits_any_fuel (suc n) zero zero b p q = refl
  digits_any_fuel (suc n) zero (suc a) b p q = absurd (omega arith)
  digits_any_fuel (suc n) (suc m) zero b p q = refl
  digits_any_fuel (suc n) (suc m) (suc a) b p q =
      rw (digits_any_fuel n m (suc a / 2) (b / 2) (omega arith) (omega arith))

  bitwise_lowest :
      (a b : ℕ)
      → bitwise z f (suc a) b ≡ bitwise z f (suc a / 2) (b / 2) * 2 + f (suc a % 2) (b % 2)
  bitwise_lowest a b =
      omega (arith, digits_any_fuel a (suc a / 2) (suc a / 2) (b / 2) (omega arith) (le_refl _))

pub bit_or_lowest : (a b : ℕ) → bit_or a b ≡ bit_or (a / 2) (b / 2) * 2 + max (a % 2) (b % 2)
bit_or_lowest zero b = simp bit_or-bitwise (omega arith)
bit_or_lowest (suc a) b = simp bit_or-bitwise (bitwise_lowest (λ y. y) max a b)

pub bit_and_lowest : (a b : ℕ) → bit_and a b ≡ bit_and (a / 2) (b / 2) * 2 + min (a % 2) (b % 2)
bit_and_lowest zero b = simp bit_and-bitwise (omega arith)
bit_and_lowest (suc a) b = simp bit_and-bitwise (bitwise_lowest (λ y. zero) min a b)

bit_and-none_below : (most x : ℕ) → x ≤ most → bit_and x 0 ≡ 0
bit_and-none_below most zero hx = simp bit_and-bitwise
bit_and-none_below zero (suc x) hx = absurd (omega arith)
bit_and-none_below (suc most) (suc x) hx =
    omega (arith, bit_and_lowest (suc x) 0, bit_and-none_below most (suc x / 2) (omega arith))

halved : (q r m : ℕ) → 0 < m → r < 2 → (q * 2 + r) % (m * 2) ≡ q % m * 2 + r
halved q r m pos h =
    let parts = div-add-mod q m in
    let whole : q * 2 + r ≡ q / m * (m * 2) + (q % m * 2 + r) = omega (arith, parts) in
    ap (λ (t : ℕ). t % (m * 2)) whole
    ∙ mul-add-mod_self_right (q / m) (m * 2) (q % m * 2 + r)
    ∙ mod-eq_of_lt (omega (arith, mod-lt q pos))

-- A mask of `k` ones keeps the low `k` bits.
pub bit_and_ones : (k x mask : ℕ) → mask + 1 ≡ 2 ^ k → bit_and x mask ≡ x % 2 ^ k
bit_and_ones zero x mask h =
    let e : mask ≡ 0 = omega arith in rw e (omega (arith, bit_and-none_below x x (le_refl x)))
bit_and_ones (suc k) x mask h =
    let double : 2 ^ suc k ≡ 2 ^ k * 2 = omega (arith, pow-suc 2 k) in
    let some_half : 0 < 2 ^ k = omega (arith, double, h) in
    let half = bit_and_ones k (x / 2) (mask / 2) (omega (arith, double, h)) in
    let digits_of : x ≡ x / 2 * 2 + x % 2 = omega arith in
    omega (
      arith,
      ap₂ ◌%◌ digits_of double,
      bit_and_lowest x mask,
      half,
      double,
      h,
      halved (x / 2) (x % 2) (2 ^ k) some_half (omega arith),
    )

differ_digits : (x y : ℕ) → x < 2 → y < 2 → differ x y ≡ (x + y) % 2
differ_digits zero zero p q = refl
differ_digits zero (suc zero) p q = refl
differ_digits (suc zero) zero p q = refl
differ_digits (suc zero) (suc zero) p q = refl
differ_digits (suc (suc x)) y p q = absurd (omega arith)
differ_digits zero (suc (suc y)) p q = absurd (omega arith)
differ_digits (suc zero) (suc (suc y)) p q = absurd (omega arith)

pub bit_xor_lowest : (a b : ℕ) → bit_xor a b ≡ bit_xor (a / 2) (b / 2) * 2 + (a + b) % 2
bit_xor_lowest zero b = simp bit_xor-bitwise (omega arith)
bit_xor_lowest (suc a) b = simp bit_xor-bitwise (
    omega (
      arith,
      bitwise_lowest (λ y. y) differ a b,
      differ_digits (suc a % 2) (b % 2) (omega arith) (omega arith),
    ))

mul-two-pow-suc : (high shift : ℕ) → high * 2 ^ suc shift ≡ 2 * (high * 2 ^ shift)
mul-two-pow-suc high shift = omega (arith, ap (λ (power : ℕ). high * power) (pow-suc 2 shift))

-- The induction is on a bound `n` of the operands, which halve together.
bit_or-zero_below : (most x : ℕ) → x ≤ most → bit_or x 0 ≡ x
bit_or-zero_below most zero hx = refl
bit_or-zero_below zero (suc x) hx = absurd (omega arith)
bit_or-zero_below (suc most) (suc x) hx =
    omega (arith, bit_or_lowest (suc x) 0, bit_or-zero_below most (suc x / 2) (omega arith))

-- `(q << k) | r` is a sum when `r` fits `k` bits.
pub bit_or_disjoint : (k q r : ℕ) → r < 2 ^ k → bit_or (q * 2 ^ k) r ≡ q * 2 ^ k + r
bit_or_disjoint zero q r h = ground (arith, bit_or-zero_below q q)
bit_or_disjoint (suc k) q r h = ground (
  arith,
  bit_or_lowest (q * 2 ^ suc k) r,
  mul-two-pow-suc q k,
  bit_or_disjoint k q (r / 2) (omega arith),
)

bit_or_comm_below : (most x y : ℕ) → x ≤ most → y ≤ most → bit_or x y ≡ bit_or y x
bit_or_comm_below zero zero zero hx hy = refl
bit_or_comm_below zero zero (suc y) hx hy = absurd (omega arith)
bit_or_comm_below zero (suc x) y hx hy = absurd (omega arith)
bit_or_comm_below (suc most) x y hx hy = omega (
  arith,
  bit_or_lowest x y,
  bit_or_lowest y x,
  bit_or_comm_below most (x / 2) (y / 2) (omega arith) (omega arith),
)

pub bit_or_comm : (a b : ℕ) → bit_or a b ≡ bit_or b a
bit_or_comm a b = bit_or_comm_below (a + b) a b (omega arith) (omega arith)

-- The same with the low field on the left, as `low | (high << k)` is written.
pub bit_or_disjoint_low : (k q r : ℕ) → r < 2 ^ k → bit_or r (q * 2 ^ k) ≡ r + q * 2 ^ k
bit_or_disjoint_low k q r h = omega (arith, bit_or_comm r (q * 2 ^ k), bit_or_disjoint k q r h)

bit_xor_comm_below : (most x y : ℕ) → x ≤ most → y ≤ most → bit_xor x y ≡ bit_xor y x
bit_xor_comm_below zero zero zero hx hy = refl
bit_xor_comm_below zero zero (suc y) hx hy = absurd (omega arith)
bit_xor_comm_below zero (suc x) y hx hy = absurd (omega arith)
bit_xor_comm_below (suc most) x y hx hy = omega (
  arith,
  bit_xor_lowest x y,
  bit_xor_lowest y x,
  bit_xor_comm_below most (x / 2) (y / 2) (omega arith) (omega arith),
)

pub bit_xor_comm : (a b : ℕ) → bit_xor a b ≡ bit_xor b a
bit_xor_comm a b = bit_xor_comm_below (a + b) a b (omega arith) (omega arith)

bit_xor_assoc_below :
    (n a b c : ℕ) → a ≤ n → b ≤ n → c ≤ n → bit_xor (bit_xor a b) c ≡ bit_xor a (bit_xor b c)
bit_xor_assoc_below zero a b c h k l =
    rw
      (
        let e : a ≡ 0 = omega arith in e,
        let e : b ≡ 0 = omega arith in e,
        let e : c ≡ 0 = omega arith in e,
      )
      refl
bit_xor_assoc_below (suc n) a b c h k l =
    let left : bit_xor a b / 2 ≡ bit_xor (a / 2) (b / 2) = omega (arith, bit_xor_lowest a b) in
    let right : bit_xor b c / 2 ≡ bit_xor (b / 2) (c / 2) = omega (arith, bit_xor_lowest b c) in
    omega (
      arith,
      bit_xor_lowest a b,
      bit_xor_lowest b c,
      bit_xor_lowest (bit_xor a b) c,
      bit_xor_lowest a (bit_xor b c),
      ap (λ (t : ℕ). bit_xor t (c / 2)) left,
      ap (λ (t : ℕ). bit_xor (a / 2) t) right,
      bit_xor_assoc_below n (a / 2) (b / 2) (c / 2) (omega arith) (omega arith) (omega arith),
    )

pub bit_xor_assoc : (a b c : ℕ) → bit_xor (bit_xor a b) c ≡ bit_xor a (bit_xor b c)
bit_xor_assoc a b c =
    bit_xor_assoc_below (a + b + c) a b c (omega arith) (omega arith) (omega arith)

bit_xor_self_below : (n a : ℕ) → a ≤ n → bit_xor a a ≡ 0
bit_xor_self_below n zero h = refl
bit_xor_self_below zero (suc a) h = absurd (omega arith)
bit_xor_self_below (suc n) (suc a) h =
    omega (arith, bit_xor_lowest (suc a) (suc a), bit_xor_self_below n (suc a / 2) (omega arith))

pub bit_xor_self : (a : ℕ) → bit_xor a a ≡ 0
bit_xor_self a = bit_xor_self_below a a (le_refl a)

pub zero-bit_xor : (a : ℕ) → bit_xor 0 a ≡ a
zero-bit_xor a = simp bit_xor-bitwise

pub bit_xor-zero : (a : ℕ) → bit_xor a 0 ≡ a
bit_xor-zero a = bit_xor_comm a 0 ∙ zero-bit_xor a

pub bit_xor-lt : (k a b : ℕ) → a < 2 ^ k → b < 2 ^ k → bit_xor a b < 2 ^ k
bit_xor-lt zero a b h l =
    rw (let e : a ≡ 0 = omega arith in e, let e : b ≡ 0 = omega arith in e) (omega arith)
bit_xor-lt (suc k) a b h l = omega (
  arith,
  pow-suc 2 k,
  bit_xor_lowest a b,
  bit_xor-lt k (a / 2) (b / 2) (omega (arith, pow-suc 2 k)) (omega (arith, pow-suc 2 k)),
)

-- Exclusive or works on the bits above and below `2 ^ k` by themselves.
pub bit_xor_fields :
    (k q r p s : ℕ)
    → r < 2 ^ k
    → s < 2 ^ k
    → bit_xor (q * 2 ^ k + r) (p * 2 ^ k + s) ≡ bit_xor q p * 2 ^ k + bit_xor r s
bit_xor_fields zero q r p s h l =
    rw
      (
        let e : r ≡ 0 = omega arith in e,
        let e : s ≡ 0 = omega arith in e,
        let e : q * 2 ^ 0 + 0 ≡ q = omega arith in e,
        let e : p * 2 ^ 0 + 0 ≡ p = omega arith in e,
      )
      (omega arith)
bit_xor_fields (suc k) q r p s h l =
    let low : r / 2 < 2 ^ k = omega (arith, pow-suc 2 k) in
    let low' : s / 2 < 2 ^ k = omega (arith, pow-suc 2 k) in
    let left : (q * 2 ^ suc k + r) / 2 ≡ q * 2 ^ k + r / 2 = omega (arith, mul-two-pow-suc q k) in
    let right : (p * 2 ^ suc k + s) / 2 ≡ p * 2 ^ k + s / 2 = omega (arith, mul-two-pow-suc p k) in
    let halves : bit_xor ((q * 2 ^ suc k + r) / 2) ((p * 2 ^ suc k + s) / 2)
        ≡ bit_xor q p * 2 ^ k + bit_xor (r / 2) (s / 2) =
      ap₂ bit_xor left right ∙ bit_xor_fields k q (r / 2) p (s / 2) low low' in
    omega (
      arith,
      bit_xor_lowest (q * 2 ^ suc k + r) (p * 2 ^ suc k + s),
      bit_xor_lowest r s,
      halves,
      mul-two-pow-suc q k,
      mul-two-pow-suc p k,
      mul-two-pow-suc (bit_xor q p) k,
    )

pub bit_xor_disjoint : (k q r : ℕ) → r < 2 ^ k → bit_xor (q * 2 ^ k) r ≡ q * 2 ^ k + r
bit_xor_disjoint k q r h =
    let left : q * 2 ^ k ≡ q * 2 ^ k + 0 = omega arith in
    let right : r ≡ 0 * 2 ^ k + r = omega arith in
    omega (
      arith,
      ap₂ bit_xor left right ∙ bit_xor_fields k q 0 0 r (omega arith) h,
      ap (λ (t : ℕ). t * 2 ^ k) (bit_xor-zero q),
      zero-bit_xor r,
    )

pub bit_or_multiple : (k q x r : ℕ) → x ≡ q * 2 ^ k → r < 2 ^ k → bit_or x r ≡ x + r
bit_or_multiple k q x r e h =
    ap (λ (t : ℕ). bit_or t r) e ∙ bit_or_disjoint k q r h ∙ ap (λ (t : ℕ). t + r) (sym e)
