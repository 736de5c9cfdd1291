-- ===== src/Crc/Equivalence.antt =====
-- The table-driven routines of lib/crc.c compute the bitwise CRC.
use odr_source_companion.Base.{
  ℕ, suc, ◌+◌, ◌*◌, ◌/◌, ◌%◌, ◌^◌, ◌<◌, bit_xor, u8, u16, u32, ◌<<<◌, ◌>>>◌, ◌==◌, ==_iff, get_or,
  all_below, all_below_sound, List, [], ◌∷◌, true, ◌≡◌, refl, ap, ap₂, ◌∙◌, sym, subst, ◌≡⟨◌⟩◌, ◌∎,
  All, IsByte, arith,
}
use odr_source_companion.Base.Bits.{
  bit_xor_fields, bit_xor-lt, bit_xor_comm, bit_xor-zero, bit_xor_disjoint,
}
use native.Mathlib.Nat.{one-le-pow, mul-add-mod_self_right, mod-eq_of_lt}
use odr_source_companion.Crc.Tables.{crc8tab, crc16tab, crc32tab}
use odr_source_companion.Crc.Bitwise.{bit_steps, bitwise_crc, bit_steps-xor, bit_steps-lt}
use odr_source_companion.Crc.{init_crc8tab, init_crc16tab, init_crc32tab, crc8, crc16, crc32}

-- One byte, at any width: shifting the register left by a byte and adding the entry of the byte
-- that leaves is eight bit steps. `m` is the number of bits below the highest byte.
module _ (top m poly : ℕ) (wide : 2 ^ suc top ≡ 256 * 2 ^ m) (fits : poly < 2 ^ suc top) where
  abbrev entry : ℕ → ℕ
  entry x = bit_steps top poly 8 (x * 2 ^ m)

  entry-lt : (x : ℕ) → x < 256 → entry x < 2 ^ suc top
  entry-lt x h = bit_steps-lt top poly fits 8 (x * 2 ^ m) (rw wide (grind (arith, one-le-pow m 2)))

  -- The register is `q` above `r`; the table's index is `q ^ b`.
  byte_step :
      (q r b : ℕ)
      → q < 256
      → r < 2 ^ m
      → b < 256
      → bit_xor ((q * 2 ^ m + r) * 256) (entry (bit_xor q b)) % 2 ^ suc top
        ≡ bit_steps top poly 8 (bit_xor (q * 2 ^ m + r) (b * 2 ^ m))
  byte_step q r b hq hr hb =
      let x : ℕ = bit_xor q b in
      let x_fits : x < 256 = bit_xor-lt 8 q b hq hb in
      let below : r * 256 < 2 ^ suc top = omega (arith, wide) in
      let entered : bit_xor (q * 2 ^ m + r) (b * 2 ^ m) ≡ bit_xor (x * 2 ^ m) r =
        ap (bit_xor (q * 2 ^ m + r)) (let e : b * 2 ^ m ≡ b * 2 ^ m + 0 = omega arith in e)
        ∙ bit_xor_fields m q r b 0 hr (omega arith)
        ∙ ap (λ (t : ℕ). x * 2 ^ m + t) (bit_xor-zero r)
        ∙ sym (bit_xor_disjoint m x r hr) in
      let shifted : bit_xor ((q * 2 ^ m + r) * 256) (entry x)
          ≡ q * 2 ^ suc top + bit_xor (r * 256) (entry x) =
        ap₂ bit_xor
          (let e : (q * 2 ^ m + r) * 256 ≡ q * 2 ^ suc top + r * 256 =
              omega (arith, ap (λ (t : ℕ). q * t) wide) in
            e)
          (let e : entry x ≡ 0 * 2 ^ suc top + entry x = omega arith in e)
        ∙ bit_xor_fields (suc top) q (r * 256) 0 (entry x) below (entry-lt x x_fits)
        ∙ ap (λ (t : ℕ). t * 2 ^ suc top + bit_xor (r * 256) (entry x)) (bit_xor-zero q) in
      let small : bit_xor (r * 256) (entry x) < 2 ^ suc top =
        bit_xor-lt (suc top) (r * 256) (entry x) below (entry-lt x x_fits) in
      bit_xor ((q * 2 ^ m + r) * 256) (entry x) % 2 ^ suc top
      ≡⟨ rw (shifted, mul-add-mod_self_right) (mod-eq_of_lt small) ⟩ bit_xor (r * 256) (entry x)
      ≡⟨ bit_xor_comm (r * 256) (entry x) ⟩ bit_xor (entry x) (r * 256)
      ≡⟨ sym (
          bit_steps-xor top poly 8 (x * 2 ^ m) r fits (rw wide (grind (arith, one-le-pow m 2)))
            below) ⟩
        bit_steps top poly 8 (bit_xor (x * 2 ^ m) r)
      ≡⟨ ap (bit_steps top poly 8) (sym entered) ⟩
        bit_steps top poly 8 (bit_xor (q * 2 ^ m + r) (b * 2 ^ m)) ∎

crc16tab_entries :
    all_below 256 (λ x. get_or crc16tab x 0 == bit_steps 15 0x1021 8 (x * 2 ^ 8)) ≡ true
unfolding all_below crc16tab bit_steps
crc16tab_entries = refl

crc16tab_entry : (x : ℕ) → x < 256 → get_or crc16tab x 0 ≡ bit_steps 15 0x1021 8 (x * 2 ^ 8)
crc16tab_entry x h = (==_iff _ _).0 (all_below_sound 256 _ x crc16tab_entries h)

crc32tab_entries :
    all_below 256 (λ x. get_or crc32tab x 0 == bit_steps 31 0x04c11db7 8 (x * 2 ^ 24)) ≡ true
unfolding all_below crc32tab bit_steps
crc32tab_entries = refl

crc32tab_entry : (x : ℕ) → x < 256 → get_or crc32tab x 0 ≡ bit_steps 31 0x04c11db7 8 (x * 2 ^ 24)
crc32tab_entry x h = (==_iff _ _).0 (all_below_sound 256 _ x crc32tab_entries h)

crc8tab_entries : all_below 256 (λ x. get_or crc8tab x 0 == bit_steps 7 0x07 8 x) ≡ true
unfolding all_below crc8tab bit_steps
crc8tab_entries = refl

crc8tab_entry : (x : ℕ) → x < 256 → get_or crc8tab x 0 ≡ bit_steps 7 0x07 8 x
crc8tab_entry x h = (==_iff _ _).0 (all_below_sound 256 _ x crc8tab_entries h)

crc16_byte :
    (crc b : ℕ)
    → crc < 2 ^ 16
    → b < 256
    → u16 (bit_xor (crc <<< 8) (get_or crc16tab (bit_xor (crc >>> 8) b) 0))
      ≡ bit_steps 15 0x1021 8 (bit_xor crc (b * 2 ^ 8))
crc16_byte crc b h k =
    let parts : crc / 2 ^ 8 * 2 ^ 8 + crc % 2 ^ 8 ≡ crc = omega arith in
    rw (crc16tab_entry (bit_xor (crc / 2 ^ 8) b) (bit_xor-lt 8 (crc / 2 ^ 8) b (omega arith) k)) (
      subst
        (λ c.
          bit_xor (c * 256) (bit_steps 15 0x1021 8 (bit_xor (crc / 2 ^ 8) b * 2 ^ 8)) % 2 ^ 16
          ≡ bit_steps 15 0x1021 8 (bit_xor c (b * 2 ^ 8)))
        parts
        (byte_step 15 8 0x1021 refl (omega arith) (crc / 2 ^ 8) (crc % 2 ^ 8) b (omega arith)
          (omega arith) k))

crc32_byte :
    (crc b : ℕ)
    → crc < 2 ^ 32
    → b < 256
    → u32 (bit_xor (crc <<< 8) (get_or crc32tab (u8 (bit_xor (crc >>> 24) b)) 0))
      ≡ bit_steps 31 0x04c11db7 8 (bit_xor crc (b * 2 ^ 24))
crc32_byte crc b h k =
    let parts : crc / 2 ^ 24 * 2 ^ 24 + crc % 2 ^ 24 ≡ crc = omega arith in
    let index_fits : bit_xor (crc / 2 ^ 24) b < 2 ^ 8 =
      bit_xor-lt 8 (crc / 2 ^ 24) b (omega arith) k in
    let index : u8 (bit_xor (crc / 2 ^ 24) b) ≡ bit_xor (crc / 2 ^ 24) b = omega arith in
    rw (index, crc32tab_entry (bit_xor (crc / 2 ^ 24) b) index_fits)
      (subst
        (λ c.
          bit_xor (c * 256) (bit_steps 31 0x04c11db7 8 (bit_xor (crc / 2 ^ 24) b * 2 ^ 24)) % 2 ^ 32
          ≡ bit_steps 31 0x04c11db7 8 (bit_xor c (b * 2 ^ 24)))
        parts
        (byte_step 31 24 0x04c11db7 refl (omega arith) (crc / 2 ^ 24) (crc % 2 ^ 24) b (omega arith)
          (omega arith) k))

-- From any 16-bit register, `crc16` over bytes is the bitwise CRC with the polynomial 0x1021.
pub crc16-bitwise :
    (data' : List ℕ) (crc : ℕ)
    → crc < 2 ^ 16
    → All IsByte data'
    → (crc16 crc data' ≡ bitwise_crc 15 0x1021 crc data') × (crc16 crc data' < 2 ^ 16)
unfolding crc16 bitwise_crc
crc16-bitwise [] crc h bs = (refl, h)
crc16-bitwise (b ∷ data') crc h bs =
    let rest = crc16-bitwise data' _ (omega arith) bs.1 in
    (rest.0 ∙ ap (λ (c : ℕ). bitwise_crc 15 0x1021 c data') (crc16_byte crc b h bs.0), rest.1)

-- The same for `crc32`, with the polynomial 0x04c11db7 and a 32-bit register.
pub crc32-bitwise :
    (data' : List ℕ) (crc : ℕ)
    → crc < 2 ^ 32
    → All IsByte data'
    → (crc32 crc data' ≡ bitwise_crc 31 0x04c11db7 crc data') × (crc32 crc data' < 2 ^ 32)
unfolding crc32 bitwise_crc
crc32-bitwise [] crc h bs = (refl, h)
crc32-bitwise (b ∷ data') crc h bs =
    let rest = crc32-bitwise data' _ (omega arith) bs.1 in
    (rest.0 ∙ ap (λ (c : ℕ). bitwise_crc 31 0x04c11db7 c data') (crc32_byte crc b h bs.0), rest.1)

-- The same for `crc8`, with the polynomial 0x07 and an 8-bit register.
pub crc8-bitwise :
    (data' : List ℕ) (crc : ℕ)
    → crc < 2 ^ 8
    → All IsByte data'
    → (crc8 crc data' ≡ bitwise_crc 7 0x07 crc data') × (crc8 crc data' < 2 ^ 8)
unfolding crc8 bitwise_crc
crc8-bitwise [] crc h bs = (refl, h)
crc8-bitwise (b ∷ data') crc h bs =
    let index_fits = bit_xor-lt 8 crc b h bs.0 in
    let entry = crc8tab_entry (bit_xor crc b) index_fits in
    let rest =
      crc8-bitwise data' _
        (rw entry (bit_steps-lt 7 0x07 (omega arith) 8 (bit_xor crc b) index_fits)) bs.1 in
    let whole : bit_xor crc b ≡ bit_xor crc (b * 2 ^ 0) = ap (bit_xor crc) (omega arith) in
    (
      rest.0 ∙ ap (λ (c : ℕ). bitwise_crc 7 0x07 c data') (entry ∙ ap (bit_steps 7 0x07 8) whole),
      rest.1,
    )

-- The tables are those that `init_crc8tab`, `init_crc16tab` and `init_crc32tab` build for the
-- polynomials 0x07, 0x1021 and 0x04c11db7 from a register of ones.
pub init_tables :
    (init_crc8tab 0x07 0xff ≡ crc8tab)
    × (init_crc16tab 0x1021 0xffff ≡ crc16tab)
    × (init_crc32tab 0x04c11db7 0xffff_ffff ≡ crc32tab)
unfolding init_crc8tab init_crc16tab init_crc32tab crc8tab crc16tab crc32tab
init_tables = (refl, refl, refl)
