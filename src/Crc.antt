-- ===== src/Crc.antt =====
-- lib/crc.c: the CRC routines that work a byte at a time through a table, and the functions that
-- build such a table for a polynomial.
pub mod Tables
pub mod Bitwise
pub mod Equivalence
pub mod Residue
use odr_source_companion.Base.{
  ℕ, zero, suc, ◌+◌, ◌*◌, ◌/◌, ◌%◌, ◌^◌, bit_and, bit_xor, u8, u16, u32, ◌<<<◌, ◌>>>◌, ◌==◌,
  if◌then◌else◌, not, to_nat, tabulate, get_or, List, [], ◌∷◌,
}
use odr_source_companion.Crc.Tables.{crc8tab, crc16tab, crc32tab}

-- One round of the inner loop of `init_crc8tab`, `init_crc16tab` and `init_crc32tab`, which differ
-- in the number of bits of `crc` alone: `top` is 7, 15 or 31, the position of its highest bit.
abbrev pub init_round : ℕ → ℕ → ℕ → ℕ → ℕ → ℕ
init_round top l_code nb j crc =
    let msb = bit_xor (to_nat (not (bit_and nb (0x80 >>> j) == 0))) (crc >>> top) in
    let shifted = (crc <<< 1) % 2 ^ suc top in if msb == 0 then shifted else bit_xor shifted l_code

-- The inner loop, with `left` rounds to go.
unfoldable pub init_bits : ℕ → ℕ → ℕ → ℕ → ℕ → ℕ → ℕ
init_bits top l_code nb zero j crc = crc
init_bits top l_code nb (suc left) j crc =
    init_bits top l_code nb left (suc j) (init_round top l_code nb j crc)

unfoldable pub init_crc8tab : ℕ → ℕ → List ℕ
unfolding init_bits
init_crc8tab l_code l_init =
    tabulate (λ i. init_bits 7 l_code (u8 (bit_xor i 0xff)) 8 0 l_init) 256 0

unfoldable pub init_crc16tab : ℕ → ℕ → List ℕ
unfolding init_bits
init_crc16tab l_code l_init =
    tabulate (λ i. bit_xor (init_bits 15 l_code (u8 (bit_xor i 0xff)) 8 0 l_init) 0xff00) 256 0

unfoldable pub init_crc32tab : ℕ → ℕ → List ℕ
unfolding init_bits
init_crc32tab l_code l_init =
    tabulate (λ i. bit_xor (init_bits 31 l_code (u8 (bit_xor i 0xff)) 8 0 l_init) 0xffffff00) 256 0

-- The bytes at `lp_data`, `l_nb` of them, are the list.
unfoldable pub crc8 : ℕ → List ℕ → ℕ
crc8 l_crc [] = l_crc
crc8 l_crc (b ∷ bs) = crc8 (get_or crc8tab (bit_xor l_crc b) 0) bs

unfoldable pub crc16 : ℕ → List ℕ → ℕ
crc16 l_crc [] = l_crc
crc16 l_crc (b ∷ bs) =
    crc16 (u16 (bit_xor (l_crc <<< 8) (get_or crc16tab (bit_xor (l_crc >>> 8) b) 0))) bs

unfoldable pub crc32 : ℕ → List ℕ → ℕ
crc32 l_crc [] = l_crc
crc32 l_crc (b ∷ bs) =
    crc32 (u32 (bit_xor (l_crc <<< 8) (get_or crc32tab (u8 (bit_xor (l_crc >>> 24) b)) 0))) bs
