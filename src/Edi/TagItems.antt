-- ===== src/Edi/TagItems.antt =====
-- lib/edioutput/TagItems.cpp and lib/edioutput/TagItems.h: the TAG items, each with its `Assemble`.
pub mod Frame
pub mod Fields
use odr_source_companion.Base.{
  ℕ, ◌+◌, ◌-◌, ◌*◌, ◌/◌, ◌%◌, ◌^◌, bit_or, u8, u16, u32, ◌<<<◌, ◌>>>◌, bytes16, bytes24, bytes32,
  ltb, ◌==◌, if◌then◌else◌, to_nat, Bool, true, false, not, List, [], ◌∷◌, ◌++◌, length, set,
  replicate, take,
}
use odr_source_companion.Edi.Result.{
  Result, ok, err, protocol_length, invalid_tpl, invalid_sad, invalid_scid, invalid_rfa,
  invalid_tid, invalid_tidext, invalid_stid,
}

-- Bytes 4 to 7 of a tag are its length in bits, written once the rest is known: `write_length`
-- from a byte count, `update_length` with the count of what stands behind name and length.
abbrev pub write_length : ℕ → List ℕ → List ℕ
write_length taglength packet =
    set
      (set (set (set packet 4 (u8 (taglength >>> 24))) 5 (u8 (taglength >>> 16))) 6
        (u8 (taglength >>> 8)))
      7 (u8 taglength)

abbrev pub update_length : List ℕ → List ℕ
update_length packet = write_length (u32 ((length packet - 8) * 8)) packet

abbrev pub placeholder : List ℕ
placeholder = 0 ∷ 0 ∷ 0 ∷ 0 ∷ []

-- What an optional field appends.
abbrev pub when : Bool → List ℕ → List ℕ
when present bytes = if present then bytes else []

-- TagStarPTR; the constructor refuses a protocol that has not four characters.
unfoldable pub star_ptr : List ℕ → Result (List ℕ)
star_ptr protocol =
    if length protocol == 4
    then ok (b'*' ∷ b'p' ∷ b't' ∷ b'r' ∷ 0 ∷ 0 ∷ 0 ∷ 0x40 ∷ [] ++ (protocol ++ 0 ∷ 0 ∷ 0 ∷ 0 ∷ []))
    else err protocol_length

-- The time fields that TagDETI and TagDSTI share.
pub record EdiTime : Type 0 where
  pub utco : ℕ
  pub seconds : ℕ
  pub tsta : ℕ

-- `set_edi_time` of both; `utco` has 8 bits and `seconds` 32, so the subtractions wrap.
unfoldable pub set_edi_time : EdiTime → ℕ → ℕ → EdiTime
set_edi_time time t tai_utc_offset =
    let utco = u8 (tai_utc_offset + 2 ^ 8 - 32) in
    record time { utco = utco; seconds = u32 (t + 2 ^ 32 - 946684800 + utco) }

abbrev pub time_bytes : EdiTime → List ℕ
time_bytes time = u8 time.utco ∷ [] ++ (bytes32 time.seconds ++ bytes24 time.tsta)

pub record TagDeti : Type 0 where
  pub stat : ℕ
  pub mid : ℕ
  pub fp : ℕ
  pub rfa : ℕ
  pub rfu : ℕ
  pub mnsc : ℕ
  pub dlfc : ℕ
  pub atstf : Bool
  pub time : EdiTime
  pub ficf : Bool
  pub fic_data : List ℕ
  pub rfudf : Bool
  pub rfud : ℕ

-- `fct` and `fcth` are `uint8_t`, the header `uint16_t`.
unfoldable pub deti_header : TagDeti → ℕ
deti_header tag =
    let fct = u8 (tag.dlfc % 250) in
    let fcth = u8 (tag.dlfc / 250) in
    u16 (
      bit_or
        (bit_or (bit_or (bit_or fct (fcth <<< 8)) (to_nat tag.rfudf <<< 13))
          (to_nat tag.ficf <<< 14))
        (to_nat tag.atstf <<< 15))

unfoldable pub eti_header : TagDeti → ℕ
eti_header tag = u32 (
    bit_or
      (bit_or (bit_or (bit_or (bit_or tag.mnsc (tag.rfu <<< 16)) (tag.rfa <<< 17)) (tag.fp <<< 19))
        (tag.mid <<< 22))
      (tag.stat <<< 24))

-- `Assemble` returns the bytes and moves the frame counter on.
unfoldable pub deti_assemble : TagDeti → List ℕ × TagDeti
unfolding deti_header eti_header
deti_assemble tag = (
  update_length (
      b'd' ∷ b'e' ∷ b't' ∷ b'i' ∷ []
      ++ (placeholder
          ++ (bytes16 (deti_header tag)
              ++ (bytes32 (eti_header tag)
                  ++ (when tag.atstf (time_bytes tag.time)
                      ++ (when tag.ficf tag.fic_data ++ when tag.rfudf (bytes24 tag.rfud))))))),
  record tag { dlfc = (tag.dlfc + 1) % 5000 },
)

pub record TagEstn : Type 0 where
  pub scid : ℕ
  pub sad : ℕ
  pub tpl : ℕ
  pub rfa : ℕ
  pub mst_data : List ℕ
  pub mst_length : ℕ
  pub id : ℕ

abbrev pub sstc : TagEstn → ℕ
sstc tag = u32 (bit_or (bit_or (bit_or (tag.scid <<< 18) (tag.sad <<< 8)) (tag.tpl <<< 2)) tag.rfa)

-- `mst_data` points to `mst_length * 8` bytes at least.
unfoldable pub estn_assemble : TagEstn → Result (List ℕ)
estn_assemble tag =
    if ltb 0x3f tag.tpl
    then err invalid_tpl
    else if ltb 0x3ff tag.sad
    then err invalid_sad
    else if ltb 0x3f tag.scid
    then err invalid_scid
    else ok (
        update_length (
          b'e' ∷ b's' ∷ b't' ∷ u8 tag.id ∷ []
          ++ (placeholder ++ (bytes24 (sstc tag) ++ take (tag.mst_length * 8) tag.mst_data))))

-- `rfad` is an array of nine bytes.
pub record TagDsti : Type 0 where
  pub stihf : Bool
  pub atstf : Bool
  pub rfadf : Bool
  pub dlfc : ℕ
  pub stat : ℕ
  pub spid : ℕ
  pub time : EdiTime
  pub rfad : List ℕ

unfoldable pub dsti_header : TagDsti → ℕ
dsti_header tag =
    let dfctl = u8 (tag.dlfc % 250) in
    let dfcth = u8 (tag.dlfc / 250) in
    u16 (
      bit_or
        (bit_or (bit_or (bit_or dfctl (dfcth <<< 8)) (to_nat tag.rfadf <<< 13))
          (to_nat tag.atstf <<< 14))
        (to_nat tag.stihf <<< 15))

unfoldable pub dsti_assemble : TagDsti → List ℕ × TagDsti
unfolding dsti_header
dsti_assemble tag = (
  update_length (
      b'd' ∷ b's' ∷ b't' ∷ b'i' ∷ []
      ++ (placeholder
          ++ (bytes16 (dsti_header tag)
              ++ (when tag.stihf (u8 tag.stat ∷ bytes16 tag.spid)
                  ++ (when tag.atstf (time_bytes tag.time) ++ when tag.rfadf tag.rfad))))),
  record tag { dlfc = (tag.dlfc + 1) % 5000 },
)

pub record TagSsm : Type 0 where
  pub rfa : ℕ
  pub tid : ℕ
  pub tidext : ℕ
  pub crcstf : Bool
  pub stid : ℕ
  pub istd_data : List ℕ
  pub istd_length : ℕ
  pub id : ℕ

abbrev pub istc : TagSsm → ℕ
istc tag = u32 (
    bit_or
      (bit_or (bit_or (bit_or (tag.rfa <<< 19) (tag.tid <<< 16)) (tag.tidext <<< 13))
        (to_nat tag.crcstf <<< 12))
      tag.stid)

-- `istd_data` points to `istd_length` bytes at least.
unfoldable pub ssm_assemble : TagSsm → Result (List ℕ)
ssm_assemble tag =
    if ltb 0x1f tag.rfa
    then err invalid_rfa
    else if ltb 0x7 tag.tid
    then err invalid_tid
    else if ltb 0x7 tag.tidext
    then err invalid_tidext
    else if ltb 0x0fff tag.stid
    then err invalid_stid
    else ok (
        update_length (
          b's' ∷ b's' ∷ bytes16 tag.id
          ++ (placeholder ++ (bytes24 (istc tag) ++ take tag.istd_length tag.istd_data))))

-- TagStarDMY: `resize` fills with zeros.
unfoldable pub star_dmy : ℕ → List ℕ
star_dmy length_ =
    write_length (u32 (length_ * 8)) (b'*' ∷ b'd' ∷ b'm' ∷ b'y' ∷ [] ++ replicate (4 + length_) 0)

-- TagODRVersion: the bytes behind the length are the version and the uptime, stored in place.
unfoldable pub odr_version : List ℕ → ℕ → List ℕ
odr_version version uptime =
    write_length (u32 ((length version + 4) * 8))
      (b'O' ∷ b'D' ∷ b'R' ∷ b'v' ∷ [] ++ (placeholder ++ (version ++ bytes32 uptime)))

-- TagODRAudioLevels: an `int16_t` is its bit pattern, below 2 ^ 16.
unfoldable pub odr_audio_levels : ℕ → ℕ → List ℕ
odr_audio_levels left right =
    write_length (u32 (4 * 8))
      (b'O' ∷ b'D' ∷ b'R' ∷ b'a' ∷ [] ++ (placeholder ++ (bytes16 left ++ bytes16 right)))

-- What a `TagItem*` points to.
pub data TagItem : Type 0 where
  ptr : List ℕ → TagItem
  deti : TagDeti → TagItem
  est : TagEstn → TagItem
  dsti : TagDsti → TagItem
  ss : TagSsm → TagItem
  dmy : ℕ → TagItem
  version : List ℕ → ℕ → TagItem
  audio_levels : ℕ → ℕ → TagItem

-- The virtual call `tag->Assemble()`: the bytes, and the item as the call leaves it.
unfoldable pub assemble_item : TagItem → Result (List ℕ × TagItem)
unfolding star_ptr deti_assemble estn_assemble dsti_assemble ssm_assemble star_dmy odr_version
    odr_audio_levels
assemble_item (ptr protocol) = elim (star_ptr protocol) [
  | ok bytes ↦ ok (bytes, ptr protocol)
  | err e ↦ err e
]
assemble_item (deti tag) = ok ((deti_assemble tag).0, deti (deti_assemble tag).1)
assemble_item (est tag) = elim (estn_assemble tag) [
  | ok bytes ↦ ok (bytes, est tag)
  | err e ↦ err e
]
assemble_item (dsti tag) = ok ((dsti_assemble tag).0, dsti (dsti_assemble tag).1)
assemble_item (ss tag) = elim (ssm_assemble tag) [ ok bytes ↦ ok (bytes, ss tag) | err e ↦ err e ]
assemble_item (dmy length_) = ok (star_dmy length_, dmy length_)
assemble_item (version v uptime) = ok (odr_version v uptime, version v uptime)
assemble_item (audio_levels l r) = ok (odr_audio_levels l r, audio_levels l r)
