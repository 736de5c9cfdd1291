-- ===== src/Tests/Decoder.antt =====
-- src/AACDecoder.cpp with two access units, and a library that accepts all.
use odr_source_companion.Base.{ℕ, false, List, [], ◌∷◌, length, ◌≡◌, refl, arith}
use odr_source_companion.AacDecoder.{
  fails, undefined, ◌>>=◌, flags_of, AacDecoder, set_up, decode_frame, au_starts,
}
use odr_source_companion.AacDecoder.Units.{decode_all}
use odr_source_companion.AacDecoder.Layout.{Layout, superframe}
use odr_source_companion.AacDecoder.Superframe.{IsSuperframe, decode_frame-superframe}

abbrev config_raw : List (List ℕ) → List ℕ → ℕ × List (List ℕ)
config_raw handle asc = (0, asc ∷ handle)

abbrev fill : List (List ℕ) → List ℕ → ℕ × ℕ × List (List ℕ)
fill handle data' = (0, 0, data' ∷ handle)

abbrev decode : List (List ℕ) → List ℕ → ℕ × List ℕ × List (List ℕ)
decode handle output = (0, 1 ∷ 0 ∷ 255 ∷ 255 ∷ [], handle)

abbrev new_decoder : AacDecoder (List (List ℕ))
new_decoder = record {
  m_decoder_set_up = false;
  m_channels = 0;
  m_peak = record { peak_left = 0; peak_right = 0 };
  m_handle = [];
  m_output_frame = [];
}

-- 32 kHz with SBR.
abbrev two_layout : Layout
two_layout = record {
  fire_high = 0;
  fire_low = 0;
  flags = 0x20;
  pad = 0;
  units =
      record { body = 1 ∷ 2 ∷ 3 ∷ []; crc_high = 0; crc_low = 0 }
      ∷ record { body = 4 ∷ []; crc_high = 0; crc_low = 0 }
      ∷ [];
}

two_layout-IsSuperframe : IsSuperframe two_layout
unfolding flags_of
two_layout-IsSuperframe = record {
  as_many = refl;
  not_six = omega arith;
  pad_range = omega arith;
  short = omega arith;
}

decode_frame-superframe_example :
    decode_frame config_raw fill decode new_decoder
      (superframe two_layout)
      (length (superframe two_layout))
    ≡ (set_up config_raw fill decode new_decoder (flags_of 0x20) >>= λ self'.
        decode_all config_raw fill decode self' two_layout.units)
decode_frame-superframe_example =
    decode_frame-superframe config_raw fill decode new_decoder two_layout two_layout-IsSuperframe

-- At 48 kHz without SBR there are six units, and the end of the last is written outside of the array.
six_units :
    decode_frame config_raw fill decode new_decoder
      (0 ∷ 0 ∷ 0x40 ∷ 0 ∷ 0 ∷ 0 ∷ 0 ∷ 0 ∷ 0 ∷ 0 ∷ 0 ∷ [])
      11
    ≡ fails undefined
unfolding decode_frame au_starts flags_of
six_units = refl
