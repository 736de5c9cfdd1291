-- ===== src/Outputs/Edi/Content.antt =====
-- What a receiver reads from the packets of the EDI output.
use odr_source_companion.Base.{
  ℕ, zero, suc, ◌+◌, ◌*◌, ◌^◌, ◌<◌, ◌≤◌, bytes16, bytes24, bytes32, if◌then◌else◌, IsByte, Bool,
  true, false, Bool-cases, inl, inr, List, [], ◌∷◌, ◌++◌, length, length-take, length-append, take,
  All, All-append, ◌≡◌, refl, arith,
}
use odr_source_companion.Edi.TagItems.{
  TagDsti, TagItem, ptr, dsti, ss, audio_levels, version, dsti_header, istc, time_bytes, when,
}
use odr_source_companion.Edi.TagItems.Frame.{
  tlv, name_of, length-name_of, value_of, tag_of, Accepts,
}
use odr_source_companion.Edi.TagPacket.Receive.{Acceptable, stream}
use odr_source_companion.Outputs.Edi.{
  EdiOutput, filled_dsti, ss_item, num_seconds_sent, version_due,
}

-- An item in range, of a moderate size, and of bytes.
pub record IsSmall (item : TagItem) : Type 0 where
  pub accepts : Accepts item
  pub short : length (value_of item) ≤ 2 ^ 24 + 16
  pub bytes : All IsByte (value_of item)
  pub name : All IsByte (name_of item)

pub All-Acceptable : (items : List TagItem) → All IsSmall items → All Acceptable items
All-Acceptable [] h = tt
All-Acceptable (item ∷ items) h =
    ((h.0.accepts, omega (arith, h.0.short)), All-Acceptable items h.1)

bytes32-IsByte : (n : ℕ) → All IsByte (bytes32 n)
bytes32-IsByte n = omega arith

pub stream-IsByte : (items : List TagItem) → All IsSmall items → All IsByte (stream items)
stream-IsByte [] h = tt
stream-IsByte (item ∷ items) h =
    All-append IsByte (tlv (tag_of item)) (stream items)
      (All-append IsByte (name_of item) (bytes32 (length (value_of item) * 8) ++ value_of item)
        h.0.name
        (All-append IsByte (bytes32 (length (value_of item) * 8)) (value_of item)
          (bytes32-IsByte (length (value_of item) * 8)) h.0.bytes))
      (stream-IsByte items h.1)

pub length-stream_small :
    (items : List TagItem)
    → All IsSmall items
    → length (stream items) ≤ length items * (2 ^ 24 + 24)
unfolding name_of
length-stream_small [] h = omega arith
length-stream_small (item ∷ items) h =
    let name : length (name_of item) ≡ 4 = length-name_of item in
    omega (
      arith,
      length-append {0} (tlv (tag_of item)) (stream items),
      length-append {0} (name_of item) (bytes32 (length (value_of item) * 8) ++ value_of item),
      name,
      h.0.short,
      length-stream_small items h.1,
    )

pub ptr-IsSmall : IsSmall (ptr (b'D' ∷ b'S' ∷ b'T' ∷ b'I' ∷ []))
unfolding value_of name_of
ptr-IsSmall = record {
  accepts = refl;
  short = omega arith;
  bytes = omega arith;
  name = omega arith;
}

time_field-small :
    (present : Bool) (tag : TagDsti)
    → (length (when present (time_bytes tag.time)) ≤ 8)
      × All IsByte (when present (time_bytes tag.time))
time_field-small true tag = (omega arith, omega arith)
time_field-small false tag = (omega arith, tt)

pub dsti-IsSmall : (self : EdiOutput) (offset : ℕ) → IsSmall (dsti (filled_dsti self offset))
unfolding value_of name_of
dsti-IsSmall self offset =
    let tag = filled_dsti self offset in
    let time = time_field-small self.m_tist tag in
    let field = when self.m_tist (time_bytes tag.time) in
    let header : All IsByte (bytes16 (dsti_header tag)) = omega arith in
    record {
      accepts = tt;
      short = omega (arith, length-append {0} field [], time.0);
      bytes =
          All-append IsByte (bytes16 (dsti_header tag)) (field ++ []) header
            (All-append IsByte field [] time.1 tt);
      name = omega arith;
    }

take-IsByte : (n : ℕ) (bytes : List ℕ) → All IsByte bytes → All IsByte (take n bytes)
take-IsByte zero bytes h = tt
take-IsByte (suc n) [] h = tt
take-IsByte (suc n) (b ∷ bytes) h = (h.0, take-IsByte n bytes h.1)

pub ss-IsSmall :
    (buf : List ℕ) (len : ℕ) → len < 2 ^ 24 → All IsByte buf → IsSmall (ss (ss_item buf len))
unfolding value_of name_of
ss-IsSmall buf len small h = record {
  accepts = (omega arith, omega arith, omega arith, omega arith);
  short = omega (arith, length-take {0} len buf);
  bytes =
      All-append IsByte (bytes24 (istc (ss_item buf len))) (take len buf) (omega arith)
        (take-IsByte len buf h);
  name = omega arith;
}

pub audio-IsSmall : (left right : ℕ) → IsSmall (audio_levels left right)
unfolding value_of name_of
audio-IsSmall left right = record {
  accepts = tt;
  short = omega arith;
  bytes = omega arith;
  name = omega arith;
}

version-IsSmall :
    (tag : List ℕ) (uptime : ℕ)
    → length tag < 2 ^ 24
    → All IsByte tag
    → IsSmall (version tag uptime)
unfolding value_of name_of
version-IsSmall tag uptime small h = record {
  accepts = tt;
  short = omega (arith, length-append {0} tag (bytes32 uptime));
  bytes = All-append IsByte tag (bytes32 uptime) h (bytes32-IsByte uptime);
  name = omega arith;
}

-- The tag for the version, every ten seconds.
abbrev pub version_items : EdiOutput → ℕ → List TagItem
version_items self now =
    if version_due self now then version self.m_odr_version_tag (num_seconds_sent self) ∷ [] else []

pub version_items-IsSmall :
    (self : EdiOutput) (now : ℕ)
    → length self.m_odr_version_tag < 2 ^ 24
    → All IsByte self.m_odr_version_tag
    → (length (version_items self now) ≤ 1) × All IsSmall (version_items self now)
version_items-IsSmall self now small h = elim (Bool-cases (version_due self now)) [
  | inl e ↦
      rw e
        (omega arith, (version-IsSmall self.m_odr_version_tag (num_seconds_sent self) small h, tt))
  | inr e ↦ rw e (omega arith, tt)
]
