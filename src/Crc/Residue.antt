-- ===== src/Crc/Residue.antt =====
-- What a receiver computes over a packet that carries its CRC.
use odr_source_companion.Base.{
  ℕ, ◌+◌, ◌*◌, ◌/◌, ◌%◌, ◌^◌, ◌<◌, bit_xor, u16, ◌<<<◌, ◌>>>◌, ◌==◌, ==_iff, bytes16, get_or,
  all_below, all_below_sound, List, [], ◌∷◌, ◌++◌, true, ◌≡◌, refl, ap, ap₂, ◌∙◌, sym, subst, arith,
}
use odr_source_companion.Base.Bits.{bit_xor_fields, bit_xor-lt, bit_xor_assoc, bit_xor_self}
use odr_source_companion.Crc.Tables.{crc16tab}
use odr_source_companion.Crc.{crc16}

pub crc16-append : (xs ys : List ℕ) (crc : ℕ) → crc16 crc (xs ++ ys) ≡ crc16 (crc16 crc xs) ys
unfolding crc16
crc16-append [] ys crc = refl
crc16-append (x ∷ xs) ys crc = crc16-append xs ys _

-- The two bytes of the inverted register, one at a time.
inverted_bytes :
    (q r : ℕ)
    → q < 256
    → r < 256
    → bytes16 (bit_xor (q * 256 + r) 0xffff) ≡ bit_xor q 0xff ∷ bit_xor r 0xff ∷ []
inverted_bytes q r hq hr =
    let e = bit_xor_fields 8 q r 0xff 0xff hr (omega arith) in
    let lt = bit_xor-lt 8 r 0xff hr (omega arith) in
    let lt' = bit_xor-lt 8 q 0xff hq (omega arith) in
    rw e (ap₂ (λ (x y : ℕ). x ∷ y ∷ []) (omega arith) (omega arith))

abbrev next : ℕ → ℕ → ℕ
next crc b = u16 (bit_xor (crc <<< 8) (get_or crc16tab (bit_xor (crc >>> 8) b) 0))

-- After the first byte only the low byte of the register is left of it.
next_first :
    (q r : ℕ) → q < 256 → r < 256 → next (q * 256 + r) (bit_xor q 0xff) ≡ bit_xor (r * 256) 0x1ef0
unfolding crc16tab
next_first q r hq hr =
    let high : (q * 256 + r) / 2 ^ 8 ≡ q = omega arith in
    let index : bit_xor q (bit_xor q 0xff) ≡ 0xff =
      sym (bit_xor_assoc q q 0xff) ∙ ap (λ (t : ℕ). bit_xor t 0xff) (bit_xor_self q) in
    let shift : (q * 256 + r) * 2 ^ 8 ≡ q * 2 ^ 16 + r * 256 = omega arith in
    let low : bit_xor (r * 256) 0x1ef0 < 2 ^ 16 =
      bit_xor-lt 16 (r * 256) 0x1ef0 (omega arith) (omega arith) in
    let split = bit_xor_fields 16 q (r * 256) 0 0x1ef0 (omega arith) (omega arith) in
    rw (high, index, shift, split) (omega (arith, low))

next_second : all_below 256 (λ r. next (bit_xor (r * 256) 0x1ef0) (bit_xor r 0xff) == 0x1d0f) ≡ true
unfolding all_below crc16tab
next_second = refl

crc16_residue_parts :
    (q r : ℕ)
    → q < 256
    → r < 256
    → crc16 (q * 256 + r) (bytes16 (bit_xor (q * 256 + r) 0xffff)) ≡ 0x1d0f
unfolding crc16
crc16_residue_parts q r hq hr =
    ap (crc16 (q * 256 + r)) (inverted_bytes q r hq hr)
    ∙ ap (λ (c : ℕ). next c (bit_xor r 0xff)) (next_first q r hq hr)
    ∙ (==_iff _ _).0 (all_below_sound 256 _ r next_second hr)

-- A register followed by its own inverse, high byte first, leaves 0x1d0f.
pub crc16_residue : (crc : ℕ) → crc < 2 ^ 16 → crc16 crc (bytes16 (bit_xor crc 0xffff)) ≡ 0x1d0f
crc16_residue crc h =
    subst (λ (c : ℕ). crc16 c (bytes16 (bit_xor c 0xffff)) ≡ 0x1d0f)
      (let e : crc / 256 * 256 + crc % 256 ≡ crc = omega arith in e)
      (crc16_residue_parts (crc / 256) (crc % 256) (omega arith) (omega arith))
