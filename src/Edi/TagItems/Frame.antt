-- ===== src/Edi/TagItems/Frame.antt =====
-- The frame of a TAG item after ETSI TS 102 821, 5.1: a name of four bytes, the length of the value
-- in bits, high byte first, and the value. Every `Assemble` builds one.
use odr_source_companion.Base.{
  ℕ, suc, ◌+◌, ◌-◌, ◌*◌, ◌%◌, ◌≤◌, u8, u32, ◌>>>◌, bytes16, bytes24, bytes32, le→ltb, List, [], ◌∷◌,
  ◌++◌, length, length-append, length-replicate, replicate, take, ◌≡◌, refl, ap, sym, ◌∙◌, arith,
}
use odr_source_companion.Edi.Result.{ok}
use odr_source_companion.Edi.TagItems.{
  TagItem, ptr, deti, est, dsti, ss, dmy, version, audio_levels, assemble_item, write_length, when,
  TagDeti, TagEstn, TagDsti, TagSsm, star_ptr, deti_assemble, estn_assemble, dsti_assemble,
  ssm_assemble, star_dmy, odr_version, odr_audio_levels, deti_header, eti_header, sstc, dsti_header,
  istc, time_bytes,
}

pub record Tag : Type 0 where
  pub name : List ℕ
  pub value : List ℕ

abbrev pub tlv : Tag → List ℕ
tlv t = t.name ++ (bytes32 (length t.value * 8) ++ t.value)

-- The name of each item; that of `est` and `ss` ends in the number of the stream.
unfoldable pub name_of : TagItem → List ℕ
name_of (ptr protocol) = b'*' ∷ b'p' ∷ b't' ∷ b'r' ∷ []
name_of (deti tag) = b'd' ∷ b'e' ∷ b't' ∷ b'i' ∷ []
name_of (est tag) = b'e' ∷ b's' ∷ b't' ∷ u8 tag.id ∷ []
name_of (dsti tag) = b'd' ∷ b's' ∷ b't' ∷ b'i' ∷ []
name_of (ss tag) = b's' ∷ b's' ∷ bytes16 tag.id
name_of (dmy length_) = b'*' ∷ b'd' ∷ b'm' ∷ b'y' ∷ []
name_of (version v uptime) = b'O' ∷ b'D' ∷ b'R' ∷ b'v' ∷ []
name_of (audio_levels l r) = b'O' ∷ b'D' ∷ b'R' ∷ b'a' ∷ []

pub length-name_of : (item : TagItem) → length (name_of item) ≡ 4
unfolding name_of
length-name_of (ptr protocol) = refl
length-name_of _ = refl

-- The value of each item, field after field.
unfoldable pub value_of : TagItem → List ℕ
value_of (ptr protocol) = protocol ++ 0 ∷ 0 ∷ 0 ∷ 0 ∷ []
value_of (deti tag) =
    bytes16 (deti_header tag)
    ++ (bytes32 (eti_header tag)
        ++ (when tag.atstf (time_bytes tag.time)
            ++ (when tag.ficf tag.fic_data ++ when tag.rfudf (bytes24 tag.rfud))))
value_of (est tag) = bytes24 (sstc tag) ++ take (tag.mst_length * 8) tag.mst_data
value_of (dsti tag) =
    bytes16 (dsti_header tag)
    ++ (when tag.stihf (u8 tag.stat ∷ bytes16 tag.spid)
        ++ (when tag.atstf (time_bytes tag.time) ++ when tag.rfadf tag.rfad))
value_of (ss tag) = bytes24 (istc tag) ++ take tag.istd_length tag.istd_data
value_of (dmy length_) = replicate length_ 0
value_of (version v uptime) = v ++ bytes32 uptime
value_of (audio_levels l r) = bytes16 l ++ bytes16 r

-- The field ranges that an `Assemble`, or the constructor, checks.
abbrev pub Accepts : TagItem → Type 0
Accepts (ptr protocol) = length protocol ≡ 4
Accepts (est tag) = (tag.tpl ≤ 0x3f) × (tag.sad ≤ 0x3ff) × (tag.scid ≤ 0x3f)
Accepts (ss tag) = (tag.rfa ≤ 0x1f) × (tag.tid ≤ 0x7) × (tag.tidext ≤ 0x7) × (tag.stid ≤ 0x0fff)
Accepts _ = Unit

-- The frame counters count modulo 5000; nothing else of an item changes.
abbrev pub advance : TagItem → TagItem
advance (deti tag) = deti (record tag { dlfc = (tag.dlfc + 1) % 5000 })
advance (dsti tag) = dsti (record tag { dlfc = (tag.dlfc + 1) % 5000 })
advance item = item

abbrev pub tag_of : TagItem → Tag
tag_of item = record { name = name_of item; value = value_of item }

bytes32-u32 : (n : ℕ) → bytes32 (u32 n) ≡ bytes32 n
bytes32-u32 n =
    let a : u8 (u32 n >>> 24) ≡ u8 (n >>> 24) = omega arith in
    let b : u8 (u32 n >>> 16) ≡ u8 (n >>> 16) = omega arith in
    let c : u8 (u32 n >>> 8) ≡ u8 (n >>> 8) = omega arith in
    let d : u8 (u32 n) ≡ u8 n = omega arith in rw (a, b, c, d) refl

-- The length that `update_length` finds is that of what stands behind it.
framed_update :
    (a b c d : ℕ) (value : List ℕ)
    → write_length
        (u32 ((suc (suc (suc (suc (suc (suc (suc (suc (length value)))))))) - 8) * 8))
        (a ∷ b ∷ c ∷ d ∷ 0 ∷ 0 ∷ 0 ∷ 0 ∷ value)
      ≡ tlv (record { name = a ∷ b ∷ c ∷ d ∷ []; value = value })
framed_update a b c d value =
    let behind : suc (suc (suc (suc (suc (suc (suc (suc (length value)))))))) - 8 ≡ length value =
      omega arith in
    ap (λ (n : ℕ). a ∷ b ∷ c ∷ d ∷ (bytes32 (u32 (n * 8)) ++ value)) behind
    ∙ ap (λ (l : List ℕ). a ∷ b ∷ c ∷ d ∷ (l ++ value)) (bytes32-u32 (length value * 8))

framed_written :
    (a b c d n : ℕ) (value : List ℕ)
    → n ≡ length value
    → write_length (u32 (n * 8)) (a ∷ b ∷ c ∷ d ∷ 0 ∷ 0 ∷ 0 ∷ 0 ∷ value)
      ≡ tlv (record { name = a ∷ b ∷ c ∷ d ∷ []; value = value })
framed_written a b c d n value e =
    ap (λ (l : List ℕ). a ∷ b ∷ c ∷ d ∷ (l ++ value)) (bytes32-u32 (n * 8))
    ∙ ap (λ (k : ℕ). a ∷ b ∷ c ∷ d ∷ (bytes32 (k * 8) ++ value)) e

deti-framed : (tag : TagDeti) → (deti_assemble tag).0 ≡ tlv (tag_of (deti tag))
unfolding name_of value_of deti_assemble
deti-framed tag = framed_update b'd' b'e' b't' b'i' (value_of (deti tag))

dsti-framed : (tag : TagDsti) → (dsti_assemble tag).0 ≡ tlv (tag_of (dsti tag))
unfolding name_of value_of dsti_assemble
dsti-framed tag = framed_update b'd' b's' b't' b'i' (value_of (dsti tag))

pub dmy-framed : (n : ℕ) → star_dmy n ≡ tlv (tag_of (dmy n))
unfolding name_of value_of star_dmy
dmy-framed n =
    let e : 4 + n ≡ suc (suc (suc (suc n))) = omega arith in
    rw e (framed_written b'*' b'd' b'm' b'y' n (replicate n 0) (sym (length-replicate n 0)))

version-framed : (v : List ℕ) (uptime : ℕ) → odr_version v uptime ≡ tlv (tag_of (version v uptime))
unfolding name_of value_of odr_version
version-framed v uptime =
    framed_written b'O' b'D' b'R' b'v' (length v + 4) (v ++ bytes32 uptime)
      (sym (length-append v (bytes32 uptime)))

levels-framed : (l r : ℕ) → odr_audio_levels l r ≡ tlv (tag_of (audio_levels l r))
unfolding name_of value_of odr_audio_levels
levels-framed l r = framed_written b'O' b'D' b'R' b'a' 4 (bytes16 l ++ bytes16 r) refl

ptr-framed : (p : List ℕ) → length p ≡ 4 → star_ptr p ≡ ok (tlv (tag_of (ptr p)))
unfolding name_of value_of star_ptr
ptr-framed p h =
    let size : length (p ++ 0 ∷ 0 ∷ 0 ∷ 0 ∷ []) ≡ 8 =
      length-append p (0 ∷ 0 ∷ 0 ∷ 0 ∷ []) ∙ omega arith in
    rw (h, size) refl

est-framed : (tag : TagEstn) → Accepts (est tag) → estn_assemble tag ≡ ok (tlv (tag_of (est tag)))
unfolding name_of value_of estn_assemble
est-framed tag h =
    rw (le→ltb 0x3f tag.tpl h.0, le→ltb 0x3ff tag.sad h.1, le→ltb 0x3f tag.scid h.2)
      (ap ok (framed_update b'e' b's' b't' (u8 tag.id) (value_of (est tag))))

ss-framed : (tag : TagSsm) → Accepts (ss tag) → ssm_assemble tag ≡ ok (tlv (tag_of (ss tag)))
unfolding name_of value_of ssm_assemble
ss-framed tag h =
    rw
      (
        le→ltb 0x1f tag.rfa h.0,
        le→ltb 0x7 tag.tid h.1,
        le→ltb 0x7 tag.tidext h.2,
        le→ltb 0x0fff tag.stid h.3,
      )
      (ap ok (framed_update b's' b's' (u8 (tag.id >>> 8)) (u8 tag.id) (value_of (ss tag))))

-- An item whose fields are in range is assembled into one tag: its name, the number of bits of its
-- value, and its value. The call advances a frame counter and changes nothing else.
pub assemble_item_lem :
    (item : TagItem) → Accepts item → assemble_item item ≡ ok (tlv (tag_of item), advance item)
unfolding assemble_item
assemble_item_lem (ptr p) h = rw (ptr-framed p h, assemble_item) refl
assemble_item_lem (deti tag) h = ap (λ (b : List ℕ). ok (b, advance (deti tag))) (deti-framed tag)
assemble_item_lem (est tag) h = rw (est-framed tag h, assemble_item) refl
assemble_item_lem (dsti tag) h = ap (λ (b : List ℕ). ok (b, advance (dsti tag))) (dsti-framed tag)
assemble_item_lem (ss tag) h = rw (ss-framed tag h, assemble_item) refl
assemble_item_lem (dmy n) h = ap (λ (b : List ℕ). ok (b, dmy n)) (dmy-framed n)
assemble_item_lem (version v u) h = ap (λ (b : List ℕ). ok (b, version v u)) (version-framed v u)
assemble_item_lem (audio_levels l r) h =
    ap (λ (b : List ℕ). ok (b, audio_levels l r)) (levels-framed l r)
