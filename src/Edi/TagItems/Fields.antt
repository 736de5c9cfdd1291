-- ===== src/Edi/TagItems/Fields.antt =====
-- What a receiver reads from the packed headers of the TAG items.
use odr_source_companion.Base.{
  ℕ, ◌+◌, ◌-◌, ◌*◌, ◌/◌, ◌%◌, ◌^◌, ◌≤◌, ◌<◌, bit_or, u8, u16, to_nat, Bool, true, false, ◌≡◌, refl,
  arith,
}
use odr_source_companion.Base.Bits.{bit_or_disjoint, bit_or_disjoint_low, bit_or_multiple}
use odr_source_companion.Edi.TagItems.{
  TagDeti, TagDsti, TagSsm, deti_header, eti_header, dsti_header, istc, EdiTime, set_edi_time,
}

to_nat-le : (b : Bool) → to_nat b ≤ 1
to_nat-le true = omega arith
to_nat-le false = omega arith

-- Three flags above thirteen bits, as both DETI and DSTI lay them out.
flags_sum :
    (low high a b c : ℕ)
    → low < 256
    → high < 32
    → a ≤ 1
    → b ≤ 1
    → c ≤ 1
    → u16 (
        bit_or (bit_or (bit_or (bit_or low (high * 2 ^ 8)) (a * 2 ^ 13)) (b * 2 ^ 14)) (c * 2 ^ 15))
      ≡ low + high * 256 + a * 8192 + b * 16384 + c * 32768
flags_sum low high a b c hl hh ha hb hc =
    rw
      (
        bit_or_disjoint_low 8 high low hl,
        bit_or_disjoint_low 13 a (low + high * 2 ^ 8) (omega arith),
        bit_or_disjoint_low 14 b (low + high * 2 ^ 8 + a * 2 ^ 13) (omega arith),
        bit_or_disjoint_low 15 c (low + high * 2 ^ 8 + a * 2 ^ 13 + b * 2 ^ 14) (omega arith),
      )
      (omega arith)

-- The DSTI header, for a frame counter below 5000: the counter is 250 times bits 8 to 12 plus the
-- low byte, and bits 13, 14 and 15 are the flags rfadf, atstf and stihf.
pub dsti_header_fields :
    (tag : TagDsti)
    → tag.dlfc < 5000
    → let h = dsti_header tag in
      (h / 256 % 32 * 250 + h % 256 ≡ tag.dlfc)
      × (h / 2 ^ 13 % 2 ≡ to_nat tag.rfadf)
      × (h / 2 ^ 14 % 2 ≡ to_nat tag.atstf)
      × (h / 2 ^ 15 ≡ to_nat tag.stihf)
unfolding dsti_header
dsti_header_fields tag h =
    let a = to_nat-le tag.rfadf in
    let b = to_nat-le tag.atstf in
    let c = to_nat-le tag.stihf in
    let e =
      flags_sum (u8 (tag.dlfc % 250)) (u8 (tag.dlfc / 250)) (to_nat tag.rfadf) (to_nat tag.atstf)
        (to_nat tag.stihf) (omega arith) (omega arith) a b c in
    rw e (
      omega (arith, a, b, c),
      omega (arith, a, b, c),
      omega (arith, a, b, c),
      omega (arith, a, b, c),
    )

-- The DETI header in the same way, with the flags rfudf, ficf and atstf.
pub deti_header_fields :
    (tag : TagDeti)
    → tag.dlfc < 5000
    → let h = deti_header tag in
      (h / 256 % 32 * 250 + h % 256 ≡ tag.dlfc)
      × (h / 2 ^ 13 % 2 ≡ to_nat tag.rfudf)
      × (h / 2 ^ 14 % 2 ≡ to_nat tag.ficf)
      × (h / 2 ^ 15 ≡ to_nat tag.atstf)
unfolding deti_header
deti_header_fields tag h =
    let a = to_nat-le tag.rfudf in
    let b = to_nat-le tag.ficf in
    let c = to_nat-le tag.atstf in
    let e =
      flags_sum (u8 (tag.dlfc % 250)) (u8 (tag.dlfc / 250)) (to_nat tag.rfudf) (to_nat tag.ficf)
        (to_nat tag.atstf) (omega arith) (omega arith) a b c in
    rw e (
      omega (arith, a, b, c),
      omega (arith, a, b, c),
      omega (arith, a, b, c),
      omega (arith, a, b, c),
    )

-- The ETI header of DETI, when each field fits its width of 16, 1, 2, 3, 2 and 8 bits.
pub eti_header_fields :
    (tag : TagDeti)
    → tag.mnsc < 2 ^ 16
    → tag.rfu < 2
    → tag.rfa < 4
    → tag.fp < 8
    → tag.mid < 4
    → tag.stat < 256
    → let h = eti_header tag in
      (h % 2 ^ 16 ≡ tag.mnsc)
      × (h / 2 ^ 16 % 2 ≡ tag.rfu)
      × (h / 2 ^ 17 % 4 ≡ tag.rfa)
      × (h / 2 ^ 19 % 8 ≡ tag.fp)
      × (h / 2 ^ 22 % 4 ≡ tag.mid)
      × (h / 2 ^ 24 ≡ tag.stat)
unfolding eti_header
eti_header_fields tag h1 h2 h3 h4 h5 h6 =
    rw
      (
        bit_or_disjoint_low 16 tag.rfu tag.mnsc h1,
        bit_or_disjoint_low 17 tag.rfa (tag.mnsc + tag.rfu * 2 ^ 16) (omega arith),
        bit_or_disjoint_low 19 tag.fp (tag.mnsc + tag.rfu * 2 ^ 16 + tag.rfa * 2 ^ 17)
            (omega arith),
        bit_or_disjoint_low 22 tag.mid
            (tag.mnsc + tag.rfu * 2 ^ 16 + tag.rfa * 2 ^ 17 + tag.fp * 2 ^ 19) (omega arith),
        bit_or_disjoint_low 24 tag.stat
            (tag.mnsc + tag.rfu * 2 ^ 16 + tag.rfa * 2 ^ 17 + tag.fp * 2 ^ 19 + tag.mid * 2 ^ 22)
            (omega arith),
      )
      (omega arith, omega arith, omega arith, omega arith, omega arith, omega arith)

istc_sum :
    (tag : TagSsm)
    → tag.rfa ≤ 0x1f
    → tag.tid ≤ 0x7
    → tag.tidext ≤ 0x7
    → tag.stid ≤ 0x0fff
    → istc tag
      ≡ tag.rfa * 2 ^ 19
        + tag.tid * 2 ^ 16
        + tag.tidext * 2 ^ 13
        + to_nat tag.crcstf * 2 ^ 12
        + tag.stid
istc_sum tag h1 h2 h3 h4 =
    let c = to_nat-le tag.crcstf in
    let s1 : ℕ = tag.rfa * 2 ^ 19 + tag.tid * 2 ^ 16 in
    let s2 : ℕ = s1 + tag.tidext * 2 ^ 13 in
    let s3 : ℕ = s2 + to_nat tag.crcstf * 2 ^ 12 in
    let q2 : ℕ = tag.rfa * 8 + tag.tid in
    let q3 : ℕ = q2 * 8 + tag.tidext in
    rw
      (
        bit_or_disjoint 19 tag.rfa (tag.tid * 2 ^ 16) (omega arith),
        bit_or_multiple 16 q2 s1 (tag.tidext * 2 ^ 13) (omega arith) (omega arith),
        bit_or_multiple 13 q3 s2 (to_nat tag.crcstf * 2 ^ 12) (omega arith) (omega (arith, c)),
        bit_or_multiple 12 (q3 * 2 + to_nat tag.crcstf) s3 tag.stid (omega arith) (omega arith),
      )
      (omega (arith, c))

-- The stream characteristics of SSm, for the field ranges that `Assemble` checks.
pub istc_fields :
    (tag : TagSsm)
    → tag.rfa ≤ 0x1f
    → tag.tid ≤ 0x7
    → tag.tidext ≤ 0x7
    → tag.stid ≤ 0x0fff
    → (istc tag < 2 ^ 24)
      × (istc tag / 2 ^ 19 ≡ tag.rfa)
      × (istc tag / 2 ^ 16 % 8 ≡ tag.tid)
      × (istc tag / 2 ^ 13 % 8 ≡ tag.tidext)
      × (istc tag / 2 ^ 12 % 2 ≡ to_nat tag.crcstf)
      × (istc tag % 2 ^ 12 ≡ tag.stid)
istc_fields tag h1 h2 h3 h4 =
    let c = to_nat-le tag.crcstf in
    let e : istc tag
        ≡ tag.rfa * 2 ^ 19
          + tag.tid * 2 ^ 16
          + tag.tidext * 2 ^ 13
          + to_nat tag.crcstf * 2 ^ 12
          + tag.stid =
      istc_sum tag h1 h2 h3 h4 in
    (
      omega (arith, c, e),
      omega (arith, c, e),
      omega (arith, c, e),
      omega (arith, c, e),
      omega (arith, c, e),
      omega (arith, c, e),
    )

-- `set_edi_time`: for a time from 2000 on and a TAI offset from 32 s to 287 s, `utco` is the offset
-- less 32, and `seconds`, if it fits 32 bits, counts from 2000-01-01 with the leap seconds since.
pub set_edi_time_lem :
    (time : EdiTime) (t offset : ℕ)
    → 946684800 ≤ t
    → 32 ≤ offset
    → offset < 288
    → t - 946684800 + (offset - 32) < 2 ^ 32
    → ((set_edi_time time t offset).utco + 32 ≡ offset)
      × ((set_edi_time time t offset).seconds + 946684800 + 32 ≡ t + offset)
      × ((set_edi_time time t offset).tsta ≡ time.tsta)
unfolding set_edi_time
set_edi_time_lem time t offset h1 h2 h3 h4 = (omega arith, omega arith, refl)
