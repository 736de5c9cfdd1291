-- ===== src/Edi/Pft/Headers.antt =====
-- A receiver of single PFT fragments after ETSI TS 102 821, 7.1: the independent description of
-- the header that PFT::Assemble writes.
use odr_source_companion.Base.{
  ℕ, ◌+◌, ◌*◌, ◌/◌, ◌%◌, ◌^◌, ◌<◌, bit_or, u8, ltb, ◌==◌, ◌&&◌, if◌then◌else◌, ==_iff, true, false,
  List, [], ◌∷◌, ◌++◌, length, drop, take, get_or, All, IsByte, Option, none, some, ◌≡◌, refl,
  arith,
}
use odr_source_companion.Base.Bits.{bit_or_disjoint_low}
use odr_source_companion.Crc.{crc16}
use odr_source_companion.Edi.Checksum.{append_crc, append_crc_residue}
use odr_source_companion.Edi.Pft.{fragment_header}

pub record Fragment : Type 0 where
  pub pseq : ℕ
  pub findex : ℕ
  pub fcount : ℕ
  pub fec : Option (ℕ × ℕ)
  pub payload : List ℕ

-- The sync word, the length and the header's CRC are checked; an address is not understood.
unfoldable pub receive_pf : List ℕ → Option Fragment
receive_pf bytes =
    let plen = get_or bytes 10 0 * 256 + get_or bytes 11 0 in
    let head = if ltb plen 0x8000 then 14 else 16 in
    if get_or bytes 0 0 == b'P'
      && (get_or bytes 1 0 == b'F'
          && (plen / 2 ^ 14 % 2 == 0
              && (length bytes == head + plen % 2 ^ 14
                  && crc16 0xffff (take head bytes) == 0x1d0f)))
    then some (record {
      pseq = get_or bytes 2 0 * 256 + get_or bytes 3 0;
      findex = get_or bytes 4 0 * 2 ^ 16 + get_or bytes 5 0 * 2 ^ 8 + get_or bytes 6 0;
      fcount = get_or bytes 7 0 * 2 ^ 16 + get_or bytes 8 0 * 2 ^ 8 + get_or bytes 9 0;
      fec = if ltb plen 0x8000 then none else some (get_or bytes 12 0, get_or bytes 13 0);
      payload = drop head bytes;
    })
    else none

-- RSk and RSz are bytes.
abbrev pub FecInRange : Option (ℕ × ℕ) → Type 0
FecInRange none = Unit
FecInRange (some (k, z)) = (k < 256) × (z < 256)

-- The numbers that a header has room for.
pub record HeaderInRange (pseq findex fcount : ℕ) (fec : Option (ℕ × ℕ)) (size : ℕ) : Type 0 where
  pub pseq_range : pseq < 2 ^ 16
  pub findex_range : findex < 2 ^ 24
  pub fcount_range : fcount < 2 ^ 24
  pub fec_range : FecInRange fec
  pub size_range : size < 2 ^ 14

fragment_header-bytes :
    (pseq findex fcount size : ℕ) (fec : Option (ℕ × ℕ))
    → All IsByte (fragment_header pseq findex fcount size fec)
fragment_header-bytes pseq findex fcount size none = omega arith
fragment_header-bytes pseq findex fcount size (some (k, z)) = omega arith

word16 : (n : ℕ) → n < 2 ^ 16 → u8 (n / 2 ^ 8) * 256 + u8 n ≡ n
word16 n h = omega arith

word24 : (n : ℕ) → n < 2 ^ 24 → u8 (n / 2 ^ 16) * 2 ^ 16 + u8 (n / 2 ^ 8) * 2 ^ 8 + u8 n ≡ n
word24 n h = omega arith

-- A fragment whose header's CRC is right is read back, whatever stands in its two bytes.
receive_pf-parts :
    (pseq findex fcount : ℕ) (fec : Option (ℕ × ℕ)) (payload : List ℕ) (q r : ℕ)
    → HeaderInRange pseq findex fcount fec (length payload)
    → crc16 0xffff (fragment_header pseq findex fcount (length payload) fec ++ (q ∷ r ∷ []))
      ≡ 0x1d0f
    → receive_pf
        ((fragment_header pseq findex fcount (length payload) fec ++ (q ∷ r ∷ [])) ++ payload)
      ≡ some
          (record { pseq = pseq; findex = findex; fcount = fcount; fec = fec; payload = payload })
unfolding receive_pf
receive_pf-parts pseq findex fcount none payload q r h residue =
    let n = length payload in
    let plen : u8 (n / 2 ^ 8) * 256 + u8 n ≡ n = omega (arith, h.size_range) in
    let flags : ltb n 0x8000 ≡ true = ground (arith, h.size_range) in
    let plain : (n / 2 ^ 14 % 2 == 0) ≡ true = (==_iff _ _).1 (omega (arith, h.size_range)) in
    let bytes = (fragment_header pseq findex fcount n none ++ (q ∷ r ∷ [])) ++ payload in
    let whole : (length bytes == 14 + n % 2 ^ 14) ≡ true =
      (==_iff _ _).1 (omega (arith, h.size_range)) in
    rw
      (
        plen,
        flags,
        plain,
        whole,
        residue,
        word16 pseq h.pseq_range,
        word24 findex h.findex_range,
        word24 fcount h.fcount_range,
      )
      refl
receive_pf-parts pseq findex fcount (some (k, z)) payload q r h residue =
    let n = length payload in
    let flag : bit_or n 0x8000 ≡ n + 0x8000 =
      bit_or_disjoint_low 15 1 n (omega (arith, h.size_range)) in
    let plen : u8 (bit_or n 0x8000 / 2 ^ 8) * 256 + u8 (bit_or n 0x8000) ≡ n + 0x8000 =
      rw (flag) (omega (arith, h.size_range)) in
    let flags : ltb (n + 0x8000) 0x8000 ≡ false = ground (arith, h.size_range) in
    let plain : ((n + 0x8000) / 2 ^ 14 % 2 == 0) ≡ true =
      (==_iff _ _).1 (omega (arith, h.size_range)) in
    let bytes = (fragment_header pseq findex fcount n (some (k, z)) ++ (q ∷ r ∷ [])) ++ payload in
    let whole : (length bytes == 16 + (n + 0x8000) % 2 ^ 14) ≡ true =
      (==_iff _ _).1 (omega (arith, h.size_range)) in
    let chunk : u8 k ≡ k = omega (arith, h.fec_range) in
    let pad : u8 z ≡ z = omega (arith, h.fec_range) in
    rw
      (
        plen,
        flags,
        plain,
        whole,
        residue,
        word16 pseq h.pseq_range,
        word24 findex h.findex_range,
        word24 fcount h.fcount_range,
        chunk,
        pad,
      )
      refl

-- Every fragment that is given a header is read back.
pub receive_pf-header :
    (pseq findex fcount : ℕ) (fec : Option (ℕ × ℕ)) (payload : List ℕ)
    → HeaderInRange pseq findex fcount fec (length payload)
    → receive_pf (append_crc (fragment_header pseq findex fcount (length payload) fec) ++ payload)
      ≡ some
          (record { pseq = pseq; findex = findex; fcount = fcount; fec = fec; payload = payload })
receive_pf-header pseq findex fcount fec payload h =
    let residue =
      append_crc_residue (fragment_header pseq findex fcount (length payload) fec)
        (fragment_header-bytes pseq findex fcount (length payload) fec) in
    unfold append_crc in
    receive_pf-parts pseq findex fcount fec payload _ _ h (unfold append_crc in residue)
