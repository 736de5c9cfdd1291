-- ===== src/Edi/TagPacket/Receive.antt =====
-- What a receiver makes of a TAG packet, after ETSI TS 102 821, 5: tag after tag until fewer bytes
-- are left than a name and a length take. The independent description of `TagPacket::Assemble`.
use odr_source_companion.Base.{
  ℕ, zero, suc, ◌+◌, ◌-◌, ◌*◌, ◌/◌, ◌%◌, ◌^◌, ◌≤◌, ◌<◌, ltb, Bool, ◌≢◌, ◌==◌, if◌then◌else◌, lt→ltb,
  le→ltb, true, false, Bool-cases, inl, inr, List, [], ◌∷◌, ◌++◌, map, length, take, drop, get_or,
  bytes32, length-append, take-append, drop-append, append_assoc, append-nil, All, All-append,
  Option, none, some, replicate, ◌⊎◌, length-replicate, ◌≡◌, refl, ap, sym, ◌∙◌, arith,
}
use native.Mathlib.Nat.{zero-add}
use native.Mathlib.Decide.{dec_lt, ℕ_discrete}
use odr_source_companion.Edi.Result.{ok}
use odr_source_companion.Edi.TagItems.{TagItem, dmy}
use odr_source_companion.Edi.TagItems.Frame.{
  Tag, tlv, tag_of, name_of, value_of, length-name_of, Accepts, advance, assemble_item_lem,
  dmy-framed,
}
use odr_source_companion.Edi.TagPacket.{TagPacket, assemble_items, pad_to_8, align, assemble}

abbrev pub word32 : List ℕ → ℕ
word32 bs = get_or bs 0 0 * 2 ^ 24 + get_or bs 1 0 * 2 ^ 16 + get_or bs 2 0 * 2 ^ 8 + get_or bs 3 0

-- Each round takes eight bytes at least; `none` is a tag that is cut off.
unfoldable pub receive_tags : ℕ → List ℕ → Option (List Tag)
receive_tags zero bytes = none
receive_tags (suc fuel) bytes =
    let behind = drop 8 bytes in
    let size = word32 (drop 4 bytes) / 8 in
    let rest = receive_tags fuel (drop size behind) in
    if ltb (length bytes) 8 then some [] else if ltb (length behind) size then none else elim rest [
      | none ↦ none
      | some tags ↦ some (record { name = take 4 bytes; value = take size behind } ∷ tags)
    ]

-- A name has four bytes, and a length in bits 32.
abbrev pub IsTag : Tag → Type 0
IsTag t = (length t.name ≡ 4) × (length t.value * 8 < 2 ^ 32)

pub word32-bytes32 : (n : ℕ) (rest : List ℕ) → n < 2 ^ 32 → word32 (bytes32 n ++ rest) ≡ n
word32-bytes32 n rest h = omega arith

receive_one :
    (fuel a b c d : ℕ) (value rest : List ℕ) (tags : List Tag)
    → length value * 8 < 2 ^ 32
    → receive_tags fuel rest ≡ some tags
    → receive_tags (suc fuel) (a ∷ b ∷ c ∷ d ∷ (bytes32 (length value * 8) ++ (value ++ rest)))
      ≡ some (record { name = a ∷ b ∷ c ∷ d ∷ []; value = value } ∷ tags)
unfolding receive_tags
receive_one fuel a b c d value rest tags h e =
    let bits = word32-bytes32 (length value * 8) (value ++ rest) h in
    let size : word32 (bytes32 (length value * 8) ++ (value ++ rest)) / 8 ≡ length value =
      omega (arith, bits) in
    let enough : length value ≤ length (value ++ rest) =
      omega (arith, length-append {0} value rest) in
    let whole = a ∷ b ∷ c ∷ d ∷ (bytes32 (length value * 8) ++ (value ++ rest)) in
    rw
      (
        le→ltb (length whole) 8 (omega arith),
        size,
        le→ltb (length (value ++ rest)) (length value) enough,
        drop-append value rest (length value) refl,
        e,
        size,
        take-append value rest (length value) refl,
      )
      refl

receive_tags-tlv :
    (fuel : ℕ) (name value rest : List ℕ) (tags : List Tag)
    → IsTag (record { name = name; value = value })
    → receive_tags fuel rest ≡ some tags
    → receive_tags (suc fuel) (tlv (record { name = name; value = value }) ++ rest)
      ≡ some (record { name = name; value = value } ∷ tags)
receive_tags-tlv fuel (a ∷ b ∷ c ∷ d ∷ []) value rest tags h e =
    receive_one fuel a b c d value rest tags h.1 e
receive_tags-tlv fuel [] value rest tags h e = absurd (omega arith)
receive_tags-tlv fuel (a ∷ []) value rest tags h e = absurd (omega arith)
receive_tags-tlv fuel (a ∷ b ∷ []) value rest tags h e = absurd (omega arith)
receive_tags-tlv fuel (a ∷ b ∷ c ∷ []) value rest tags h e = absurd (omega arith)
receive_tags-tlv fuel (a ∷ b ∷ c ∷ d ∷ x ∷ xs) value rest tags h e = absurd (omega arith)

-- Fewer than eight bytes are padding.
receive_padding :
    (fuel : ℕ) (rest : List ℕ) → length rest < 8 → receive_tags (suc fuel) rest ≡ some []
unfolding receive_tags
receive_padding fuel rest h = rw (lt→ltb (length rest) 8 h) refl

abbrev pub Acceptable : TagItem → Type 0
Acceptable item = Accepts item × (length (value_of item) * 8 < 2 ^ 32)

abbrev pub stream : List TagItem → List ℕ
stream [] = []
stream (item ∷ items) = tlv (tag_of item) ++ stream items

assemble_items_lem :
    (items : List TagItem)
    → All Acceptable items
    → assemble_items items ≡ ok (stream items, map advance items)
unfolding assemble_items
assemble_items_lem [] h = refl
assemble_items_lem (item ∷ items) h =
    rw (assemble_item_lem item h.0.0, assemble_items_lem items h.1) refl

receive_stream :
    (items : List TagItem) (fuel : ℕ) (rest : List ℕ) (tags : List Tag)
    → All Acceptable items
    → receive_tags fuel rest ≡ some tags
    → receive_tags (length items + fuel) (stream items ++ rest) ≡ some (map tag_of items ++ tags)
receive_stream [] fuel rest tags h e = rw zero-add e
receive_stream (item ∷ items) fuel rest tags h e =
    let more : suc (length items) + fuel ≡ suc (length items + fuel) = omega arith in
    rw (more, append_assoc)
      (receive_tags-tlv (length items + fuel) (name_of item) (value_of item) (stream items ++ rest)
        (map tag_of items ++ tags) (length-name_of item, h.0.1)
        (receive_stream items fuel rest tags h.1 e))

pad_to_8_lem :
    (k fuel : ℕ) (packet : List ℕ)
    → k < 8
    → k ≤ fuel
    → (length packet + k) % 8 ≡ 0
    → pad_to_8 fuel packet ≡ packet ++ replicate k 0
unfolding pad_to_8
pad_to_8_lem zero zero packet l f e = sym (append-nil packet)
pad_to_8_lem (suc k) zero packet l f e = absurd (omega arith)
pad_to_8_lem zero (suc fuel) packet l f e =
    rw (le→ltb 0 (length packet % 8) (omega arith)) (sym (append-nil packet))
pad_to_8_lem (suc k) (suc fuel) packet l f e = rw (lt→ltb 0 (length packet % 8) (omega arith)) (
    pad_to_8_lem k fuel (packet ++ 0 ∷ []) (omega arith) (omega arith)
      (let size = length-append packet (0 ∷ []) in omega (arith, size))
    ∙ append_assoc packet (0 ∷ []) (replicate k 0))

-- The dummy tag that an alignment above 8 asks for.
abbrev pub extra : ℕ → List TagItem
extra alignment = if ltb 8 alignment then dmy (alignment - 8) ∷ [] else []

round_up : ℕ → ℕ
round_up n = (8 - n % 8) % 8

align_lem :
    (alignment : ℕ) (packet : List ℕ)
    → (zeros : ℕ) × (zeros < 8)
      × (align alignment packet ≡ packet ++ (stream (extra alignment) ++ replicate zeros 0))
      × (alignment ≡ 8 → (length packet + zeros) % 8 ≡ 0)
unfolding align
align_lem alignment packet = elim (dec_lt 8 alignment) [
  | yes above ↦ (
    0,
    omega arith,
    rw
        (
          lt→ltb 8 alignment above,
          ne_test alignment 0 (omega arith),
          ne_test alignment 8 (omega arith),
          append-nil,
          append-nil,
        )
        (ap (λ (l : List ℕ). packet ++ l) (dmy-framed (alignment - 8))),
    λ e. absurd (omega arith),
  )
  | no below ↦ elim (ℕ_discrete alignment 8) [
    | yes e ↦
        let zeros = round_up (length packet) in
        let rounded : (length packet + zeros) % 8 ≡ 0 = unfold round_up in omega arith in
        let few : zeros < 8 = unfold round_up in omega arith in
        (zeros, few, rw e (pad_to_8_lem zeros 8 packet few (omega arith) rounded), λ _. rounded)
    | no ne ↦ (
      0,
      omega arith,
      rw (le→ltb 8 alignment (omega arith), ne_test alignment 8 ne, append-nil)
          (either (alignment == 0) packet),
      λ e. absurd (ne e),
    )
  ]
]
  where
    ne_test : (a b : ℕ) → a ≢ b → (a == b) ≡ false
    ne_test a b ne = ground arith

    either : (b : Bool) (l : List ℕ) → (if b then l else l) ≡ l
    either true l = refl
    either false l = refl

extra-Acceptable : (alignment : ℕ) → (alignment - 8) * 8 < 2 ^ 32 → All Acceptable (extra alignment)
unfolding value_of
extra-Acceptable alignment h = elim (Bool-cases (ltb 8 alignment)) [
  | inl above ↦ rw above (
    (
      tt,
      let size : length (replicate (alignment - 8) 0) ≡ alignment - 8 =
            length-replicate {A = ℕ} (alignment - 8) 0 in
          rw size h,
    ),
    tt,
  )
  | inr below ↦ rw below tt
]

length-stream : (items : List TagItem) → length items ≤ length (stream items)
length-stream [] = omega arith
length-stream (item ∷ items) = omega (
  arith,
  length-stream items,
  length-append {0} (tlv (tag_of item)) (stream items),
  length-append {0} (name_of item) (bytes32 (length (value_of item) * 8) ++ value_of item),
)

stream-append : (a b : List TagItem) → stream (a ++ b) ≡ stream a ++ stream b
stream-append [] b = refl
stream-append (item ∷ a) b = simp (stream-append a b, append_assoc)

pub assembled :
    (p : TagPacket) (bytes : List ℕ)
    → p.raw_tagpacket ≡ []
    → All Acceptable p.tag_items
    → align p.m_alignment (stream p.tag_items) ≡ bytes
    → assemble p ≡ ok (bytes, record p { tag_items = map advance p.tag_items })
unfolding assemble
assembled p bytes raw h same =
    let empty : ltb 0 (length p.raw_tagpacket) ≡ false =
      ap (λ (l : List ℕ). ltb 0 (length l)) raw in
    rw (empty, assemble_items_lem p.tag_items h)
      (ap (λ (b : List ℕ). ok (b, record p { tag_items = map advance p.tag_items })) same)

aligned_length :
    (alignment : ℕ) (items : List TagItem) (zeros : ℕ)
    → (alignment ≡ 8 → (length (stream items) + zeros) % 8 ≡ 0)
    → alignment ≡ 8
    → length (stream (items ++ extra alignment) ++ replicate zeros 0) % 8 ≡ 0
aligned_length alignment items zeros rounded e =
    let none_extra : extra alignment ≡ [] = ap extra e in
    let total : length (stream items ++ replicate zeros 0) ≡ length (stream items) + zeros =
      length-append (stream items) (replicate zeros 0)
      ∙ ap (λ (k : ℕ). length (stream items) + k) (length-replicate {A = ℕ} zeros 0) in
    rw (none_extra, append-nil, total) (rounded e)

-- The receiver's rounds: one for each tag, and one for the padding.
pub receive_padded :
    (items : List TagItem) (zeros : ℕ)
    → All Acceptable items
    → zeros < 8
    → receive_tags
        (suc (length (stream items ++ replicate zeros 0)))
        (stream items ++ replicate zeros 0)
      ≡ some (map tag_of items)
receive_padded items zeros h few =
    let size = length-append {0} (stream items) (replicate zeros 0) in
    let spare : ℕ = length (stream items ++ replicate zeros 0) - length items in
    let fuel : suc (length (stream items ++ replicate zeros 0)) ≡ length items + suc spare =
      omega (arith, size, length-stream items) in
    let padding : length (replicate zeros 0) < 8 =
      omega (arith, length-replicate {A = ℕ} zeros 0) in
    ap (λ (k : ℕ). receive_tags k (stream items ++ replicate zeros 0)) fuel
    ∙ receive_stream items (suc spare) (replicate zeros 0) [] h
        (receive_padding spare (replicate zeros 0) padding)
    ∙ ap (λ (l : List Tag). some l) (append-nil (map tag_of items))

-- A packet of items whose fields are in range and whose values fit a 32-bit length is assembled,
-- for every alignment, into bytes from which a receiver reads the items' tags in their order, then
-- the dummy tag that an alignment above 8 asks for, and no more; at an alignment of 8 the number of
-- bytes is a multiple of 8. The items' frame counters are advanced, and the rest of the packet is
-- not changed.
pub receive_tags-assemble :
    (p : TagPacket)
    → p.raw_tagpacket ≡ []
    → All Acceptable p.tag_items
    → (p.m_alignment - 8) * 8 < 2 ^ 32
    → (bytes : List ℕ) × (assemble p ≡ ok (bytes, record p { tag_items = map advance p.tag_items }))
      × (receive_tags (suc (length bytes)) bytes
          ≡ some (map tag_of (p.tag_items ++ extra p.m_alignment)))
      × ((p.m_alignment ≢ 8) ⊎ (length bytes % 8 ≡ 0))
receive_tags-assemble p raw h fits =
    let items = p.tag_items in
    let all = items ++ extra p.m_alignment in
    let (zeros, few, run, rounded) = align_lem p.m_alignment (stream items) in
    let bytes = stream all ++ replicate zeros 0 in
    let same : align p.m_alignment (stream items) ≡ bytes =
      run
      ∙ sym (append_assoc (stream items) (stream (extra p.m_alignment)) (replicate zeros 0))
      ∙ ap (λ (l : List ℕ). l ++ replicate zeros 0)
          (sym (stream-append items (extra p.m_alignment))) in
    (
      bytes,
      assembled p bytes raw h same,
      receive_padded all zeros
          (All-append Acceptable items (extra p.m_alignment) h
            (extra-Acceptable p.m_alignment fits))
          few,
      elim (ℕ_discrete p.m_alignment 8) [
        | yes e ↦ inr (aligned_length p.m_alignment items zeros rounded e)
        | no ne ↦ inl ne
      ],
    )
