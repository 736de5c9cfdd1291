-- ===== src/AvtInput/Datagram.antt =====
-- src/AVTInput.cpp: `_isSTI` and `_findDABFrameFromUDP`, the search for a DAB frame in a datagram. A
-- read past the end of the datagram is `none`; the source does not check its reads.
pub mod Framing
use odr_source_companion.Base.{
  ℕ, suc, ◌+◌, ◌-◌, ◌*◌, ◌/◌, ◌%◌, ◌^◌, bit_and, bit_or, u32, ◌<<<◌, ◌>>>◌, ltb, ◌==◌,
  if◌then◌else◌, Bool, true, false, not, ◌&&◌, ◌||◌, List, [], ◌∷◌, length, get_elem?, drop, take,
  Option, none, some,
}
use mathlib.Core.Option
use odr_source_companion.AvtInput.{AvtInput, FrameType, type_sti, type_sti_rtp, type_cant_extract}

infixl 5 ◌>>=◌
abbrev pub ◌>>=◌ {ℓ κ} : {A : Type ℓ} {B : Type κ} → Option A → (A → Option B) → Option B
none >>= f = none
some a >>= f = f a

abbrev pub unpack2 : List ℕ → ℕ → Option ℕ
unpack2 buf index = do
  high ← get_elem? buf index
  low ← get_elem? buf (index + 1)
  some (bit_or (high <<< 8) low)

abbrev pub is_sync : ℕ → ℕ → ℕ → Bool
is_sync a b c = a == 0x1F && (b == 0x90 && c == 0xCA) || a == 0xE0 && (b == 0x6F && c == 0x35)

-- The bytes 1, 2 and 3 of `buf + index`.
abbrev pub is_sti : List ℕ → ℕ → Option Bool
is_sti buf index = do
  a ← get_elem? buf (index + 1)
  b ← get_elem? buf (index + 2)
  c ← get_elem? buf (index + 3)
  some (is_sync a b c)

-- Where the frame begins, and what is returned through the references; the data size is a
-- `uint32_t` that becomes a `size_t`.
pub record Found : Type 0 where
  pub index : ℕ
  pub data_size : ℕ
  pub frame_number : ℕ

-- What `_info` counts; its messages are left out.
unfoldable pub info : AvtInput → FrameType → ℕ → AvtInput
info self type_cant_extract size = record self {
  last_info_frame_type = type_cant_extract;
  last_info_size = size;
}
info self type_sti size = record self {
  last_info_frame_type = type_sti;
  last_info_size = size;
  info_nb_frame = self.info_nb_frame + 1;
}
info self type_sti_rtp size = record self {
  last_info_frame_type = type_sti_rtp;
  last_info_size = size;
  info_nb_frame = self.info_nb_frame + 1;
}

-- The STI header at `index`, behind an RTP header or at the beginning.
unfoldable pub read_sti : List ℕ → ℕ → Option (Option Found)
read_sti buf index = do
  dfctl ← get_elem? buf (index + 13)
  dfcth ← get_elem? buf (index + 14)
  nst_field ← unpack2 buf (index + 14)
  let nst = bit_and nst_field 0x7FF
  if ltb nst 1 then some none else (do
    stl_field ← unpack2 buf (index + 16)
    crcstf_field ← get_elem? buf (index + 19)
    let stl = bit_and stl_field 0x1FFF
    let crcstf = bit_and crcstf_field (0x80 >>> 7)
    some (
        some (record {
          index = index + 16 + (nst * 4 + 4);
          data_size = u32 (stl + 2 ^ 32 - 2 * crcstf);
          frame_number = (dfcth >>> 3) * 250 + dfctl;
        })))

-- What follows a sync word: the header, and `_info` if there is a stream.
unfoldable pub extract : AvtInput → List ℕ → ℕ → FrameType → Option (Option Found × AvtInput)
extract self buf index type = do
  found ← read_sti buf index
  some (elim found [ none ↦ (none, self) | some f ↦ (some f, info self type f.data_size) ])

-- An RTP header of version 2 and payload type 34 takes twelve bytes. Its sequence number is kept; a
-- jump of it is only printed.
unfoldable pub skip_rtp : AvtInput → List ℕ → Option (Option Found × AvtInput)
unfolding extract
skip_rtp self buf = get_elem? buf 0 >>= λ first. get_elem? buf 1 >>= λ second.
    get_elem? buf 2 >>= λ high. get_elem? buf 3 >>= λ low.
    let self' = record self { previous_rtp_index = some (bit_or (high <<< 8) low) } in
    if not ((bit_and first 0xC0 >>> 6) == 2 && bit_and second 0x7F == 34)
    then some (none, self)
    else is_sti buf 12 >>= λ sti.
        if sti then extract self' buf 12 type_sti_rtp else some (none, self')

-- `none` inside is the null pointer.
unfoldable pub find_dab_frame_from_udp : AvtInput → List ℕ → Option (Option Found × AvtInput)
unfolding skip_rtp extract
find_dab_frame_from_udp self buf = is_sti buf 0 >>= λ sti.
    if sti
    then extract self buf 0 type_sti
    else if ltb (length buf) 12
    then some (none, self)
    else skip_rtp self buf
