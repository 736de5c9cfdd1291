-- ===== src/AacDecoder.antt =====
-- src/AACDecoder.cpp and src/AACDecoder.h: a superframe is cut into its access units, which the
-- decoder of libfdk-aac gets one by one. That library's calls are parameters. What an exception leaves
-- of the object is not modelled.
pub mod Units
pub mod Layout
pub mod Superframe
use odr_source_companion.Base.{
  ℕ, ◌+◌, ◌-◌, ◌*◌, ◌%◌, ◌^◌, bit_and, bit_or, ◌<<<◌, ◌>>>◌, ltb, leb, ◌==◌, ◌&&◌, ◌||◌, not,
  if◌then◌else◌, Bool, true, false, List, [], ◌∷◌, ◌++◌, length, take, drop, get_or, get_elem?,
  replicate, Option, none, some,
}

-- The exceptions, with the library's error codes, and behaviour that is undefined.
pub data Failure : Type 0 where
  au_ordering : Failure
  config_raw_failed fill_failed decode_failed : ℕ → Failure
  not_consumed : Failure
  undefined : Failure

pub data Attempt {ℓ} (Value : Type ℓ) : Type ℓ where
  fails : Failure → Attempt Value
  gives : Value → Attempt Value

infixl 5 ◌>>=◌
abbrev pub ◌>>=◌ {ℓ κ} :
    {Value : Type ℓ} {Next : Type κ} → Attempt Value → (Value → Attempt Next) → Attempt Next
fails failure >>= next = fails failure
gives value >>= next = next value

-- Bytes 3 and up, of the flags of byte 2.
pub record Flags : Type 0 where
  pub dac_rate : Bool
  pub sbr_flag : Bool
  pub aac_channel_mode : Bool
  pub ps_flag : Bool

abbrev pub bit_set : ℕ → ℕ → Bool
bit_set byte mask = not (bit_and byte mask == 0)

unfoldable pub flags_of : ℕ → Flags
flags_of byte = record {
  dac_rate = bit_set byte 0x40;
  sbr_flag = bit_set byte 0x20;
  aac_channel_mode = bit_set byte 0x10;
  ps_flag = bit_set byte 0x08;
}

abbrev pub core_sr_index : Flags → ℕ
core_sr_index f = if f.dac_rate then (if f.sbr_flag then 6 else 3) else if f.sbr_flag then 8 else 5

abbrev pub num_aus : Flags → ℕ
num_aus f = if f.dac_rate then (if f.sbr_flag then 3 else 6) else if f.sbr_flag then 2 else 4

abbrev pub first_start : Flags → ℕ
first_start f = if f.dac_rate then (if f.sbr_flag then 6 else 11) else if f.sbr_flag then 5 else 8

-- Twelve bits that begin a byte, and twelve that end one. A read past the end is undefined.
abbrev pub byte_at : List ℕ → ℕ → Attempt ℕ
byte_at data' i = elim (get_elem? data' i) [ none ↦ fails undefined | some b ↦ gives b ]

abbrev pub start_high : List ℕ → ℕ → Attempt ℕ
start_high data' i =
    byte_at data' i >>= λ a. byte_at data' (i + 1) >>= λ b. gives (bit_or (a <<< 4) (b >>> 4))

abbrev pub start_low : List ℕ → ℕ → Attempt ℕ
start_low data' i =
    byte_at data' i >>= λ a. byte_at data' (i + 1) >>= λ b. gives (bit_or (bit_and a 0x0F <<< 8) b)

-- `au_start` and the end of the buffer behind it. The array has six elements: with six access units
-- the end is written outside.
unfoldable pub au_starts : Flags → List ℕ → ℕ → Attempt (List ℕ)
au_starts f data' len = start_high data' 3 >>= λ second.
    if num_aus f == 2
    then gives (first_start f ∷ second ∷ len ∷ [])
    else (start_low data' 4 >>= λ third.
        if num_aus f == 3
        then gives (first_start f ∷ second ∷ third ∷ len ∷ [])
        else (start_high data' 6 >>= λ fourth.
            if num_aus f == 4
            then gives (first_start f ∷ second ∷ third ∷ fourth ∷ len ∷ [])
            else fails undefined))

abbrev pub in_order : List ℕ → Bool
in_order [] = true
in_order (s ∷ []) = true
in_order (s ∷ t ∷ rest) = ltb s t && in_order (t ∷ rest)

-- AudioSpecificConfig: AAC LC, with SBR and PS where they are signalled.
abbrev pub sbr_config : Flags → List ℕ
sbr_config f =
    let extension_sr_index = if f.dac_rate then 3 else 5 in
    let third = bit_or 0x80 (extension_sr_index <<< 3) in
    0x56 ∷ 0xE5 ∷ (if f.ps_flag then bit_or third 0x05 ∷ 0x48 ∷ 0x80 ∷ [] else third ∷ [])

unfoldable pub audio_specific_config : Flags → List ℕ
audio_specific_config f =
    let core_ch_config = if f.aac_channel_mode then 2 else 1 in
    bit_or (2 <<< 3) (core_sr_index f >>> 1)
    ∷ bit_or (bit_or (bit_and (core_sr_index f) 1 <<< 7) (core_ch_config <<< 3)) 4
    ∷ (if f.sbr_flag then sbr_config f else [])

abbrev pub channels_of : Flags → ℕ
channels_of f = if f.aac_channel_mode || f.ps_flag then 2 else 1

-- An `int16_t` is its bit pattern, below 2 ^ 16.
abbrev pub max_int16 : ℕ → ℕ → ℕ
max_int16 a b = if ltb ((a + 2 ^ 15) % 2 ^ 16) ((b + 2 ^ 15) % 2 ^ 16) then b else a

pub record Peak : Type 0 where
  pub peak_left : ℕ
  pub peak_right : ℕ

-- The loop over the decoded frame, four bytes a round.
unfoldable pub peaks : Peak → List ℕ → Peak
peaks peak (a ∷ b ∷ c ∷ d ∷ rest) =
    peaks
      (record {
        peak_left = max_int16 peak.peak_left (bit_or a (b <<< 8));
        peak_right = max_int16 peak.peak_right (bit_or c (d <<< 8));
      })
      rest
peaks peak bytes = peak

-- The handle of the library has the type `Handle`.
pub record AacDecoder (Handle : Type 0) : Type 0 where
  pub m_decoder_set_up : Bool
  pub m_channels : ℕ
  pub m_peak : Peak
  pub m_handle : Handle
  pub m_output_frame : List ℕ

abbrev pub get_peaks : {Handle : Type 0} → AacDecoder Handle → Peak × AacDecoder Handle
get_peaks self = (self.m_peak, record self { m_peak = record { peak_left = 0; peak_right = 0 } })

-- `config_raw` and `fill` return an error code, and `fill` also the number of bytes that are left;
-- `decode` gets the output frame and returns an error code and the frame. The code 0 is AAC_DEC_OK.
module _ {Handle : Type 0} (config_raw : Handle → List ℕ → ℕ × Handle)
    (fill : Handle → List ℕ → ℕ × ℕ × Handle) (decode : Handle → List ℕ → ℕ × List ℕ × Handle) where
  abbrev pub set_up_with : AacDecoder Handle → Flags → ℕ × Handle → Attempt (AacDecoder Handle)
  set_up_with self f (result, handle) =
      if result == 0
      then gives (record self {
        m_handle = handle;
        m_channels = channels_of f;
        m_output_frame = replicate (960 * 2 * channels_of f * (if f.sbr_flag then 2 else 1)) 0;
        m_decoder_set_up = true;
      })
      else fails (config_raw_failed result)

  -- The first frame sets the decoder up.
  unfoldable pub set_up : AacDecoder Handle → Flags → Attempt (AacDecoder Handle)
  set_up self f =
      if not self.m_decoder_set_up
      then set_up_with self f (config_raw self.m_handle (audio_specific_config f))
      else gives self

  abbrev pub take_output : AacDecoder Handle → ℕ × List ℕ × Handle → Attempt (AacDecoder Handle)
  take_output self (result, output, handle) =
      if result == 0
      then gives (record self {
        m_handle = handle;
        m_output_frame = output;
        m_peak = peaks self.m_peak output;
      })
      else fails (decode_failed result)

  abbrev pub after_fill : AacDecoder Handle → ℕ × ℕ × Handle → Attempt (AacDecoder Handle)
  after_fill self (result, bytes_valid, handle) =
      if not (result == 0)
      then fails (fill_failed result)
      else if not (bytes_valid == 0)
      then fails not_consumed
      else take_output self (decode handle self.m_output_frame)

  unfoldable pub decode_au : AacDecoder Handle → List ℕ → Attempt (AacDecoder Handle)
  decode_au self data' = after_fill self (fill self.m_handle data')

  -- The loop over the access units; without room for its CRC the length of a unit wraps.
  unfoldable pub decode_units : AacDecoder Handle → List ℕ → List ℕ → Attempt (AacDecoder Handle)
  decode_units self data' [] = gives self
  decode_units self data' (s ∷ []) = gives self
  decode_units self data' (s ∷ t ∷ starts) =
      if ltb t (s + 2)
      then fails undefined
      else (decode_au self (take (t - s - 2) (drop s data')) >>= λ self'.
          decode_units self' data' (t ∷ starts))

  unfoldable pub decode_frame : AacDecoder Handle → List ℕ → ℕ → Attempt (AacDecoder Handle)
  unfolding decode_units au_starts flags_of
  decode_frame self data' len = byte_at data' 2 >>= λ header.
      let f = flags_of header in
      au_starts f data' len >>= λ starts.
      if not (in_order starts)
      then fails au_ordering
      else (set_up self f >>= λ self'. decode_units self' data' starts)
