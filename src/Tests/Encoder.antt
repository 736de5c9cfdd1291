-- ===== src/Tests/Encoder.antt =====
-- src/AVTInput.cpp at 96 and at 8 kbit/s.
use odr_source_companion.Base.{
  ℕ, true, false, List, [], ◌∷◌, ◌++◌, map, replicate, take, drop, All, some, ◌≡◌, refl, arith,
}
use mathlib.Core.List.{reverse}
use odr_source_companion.AvtInput.{
  AvtInput, Arrival, type_sti, type_sti_rtp, avt_input, send_ctrl_message, set_dab_plus_parameters,
}
use odr_source_companion.AvtInput.Parameters.{Configured, set_dab_plus_parameters-Configured}
use odr_source_companion.AvtInput.Datagram.{info, find_dab_frame_from_udp}
use odr_source_companion.AvtInput.Datagram.Framing.{
  StiFrame, InRange, RtpHeader, sti_bytes, sti_found, rtp_bytes, find_dab_frame-datagram,
}
use odr_source_companion.AvtInput.Pad.{check_messages}
use odr_source_companion.AvtInput.Pad.Requests.{
  request, IsPadFrame, Served, push_pad_frames, check_messages-Served,
}
use odr_source_companion.AvtInput.Superframe.Ready.{assembly, IsReady}
use odr_source_companion.AvtInput.Superframe.Start.{avt_input-IsReady}

abbrev fresh_input : AvtInput
fresh_input = avt_input [] (b'u' ∷ []) 9000 4

accepted_96 : (set_dab_plus_parameters fresh_input 96 2 48000 true false).0 ≡ 0
unfolding set_dab_plus_parameters
accepted_96 = refl

set_dab_plus_parameters-Configured_example :
    Configured 96 (set_dab_plus_parameters fresh_input 96 2 48000 true false).1
set_dab_plus_parameters-Configured_example =
    set_dab_plus_parameters-Configured fresh_input 96 2 48000 true false accepted_96

control_message :
    (set_dab_plus_parameters fresh_input 96 2 48000 true false).1.sent
    ≡ (0xFD ∷ 0x07 ∷ 12 ∷ 3 ∷ 1 ∷ 0 ∷ []) ∷ []
unfolding set_dab_plus_parameters send_ctrl_message avt_input
control_message = refl

-- A frame of 24 bytes, the first of one stream.
abbrev first_frame : StiFrame
first_frame = record {
  sync = true;
  error = 0xFF;
  sizes = 0;
  control = 0;
  version = 0;
  counter = 1255;
  tid = 0;
  word = 0;
  others = [];
  end_of_header = 0;
  frame = replicate 24 7;
  rest = 0 ∷ 0 ∷ [];
}

first_frame-InRange : InRange first_frame
first_frame-InRange = record {
  counter_range = omega arith;
  tid_range = omega arith;
  even_word = refl;
  streams_range = omega arith;
  frame_range = omega arith;
}

abbrev header : RtpHeader
header = record { flags = 0; marker = true; sequence = 513; timestamp = 0; source = 0 }

find_dab_frame-datagram_example :
    (find_dab_frame_from_udp fresh_input (sti_bytes first_frame)
      ≡ some (some (sti_found 0 first_frame), info fresh_input type_sti 24))
    × (take 24 (drop (sti_found 0 first_frame).index (sti_bytes first_frame)) ≡ replicate 24 7)
    × (find_dab_frame_from_udp fresh_input (rtp_bytes header ++ sti_bytes first_frame)
        ≡ some (
          some (sti_found 12 first_frame),
          info (record fresh_input { previous_rtp_index = some 513 }) type_sti_rtp 24,
        ))
    × (take 24 (drop (sti_found 12 first_frame).index (rtp_bytes header ++ sti_bytes first_frame))
        ≡ replicate 24 7)
find_dab_frame-datagram_example =
    find_dab_frame-datagram fresh_input header first_frame first_frame-InRange (omega arith)

abbrev pad_frames : List (List ℕ)
pad_frames = (1 ∷ 2 ∷ 3 ∷ []) ∷ (4 ∷ []) ∷ []

pad_frames-IsPadFrame : All IsPadFrame pad_frames
pad_frames-IsPadFrame = ((omega arith, omega arith), ((omega arith, omega arith), tt))

check_messages-Served_example : Served fresh_input (11 ∷ 12 ∷ []) (map reverse pad_frames) [] (
    check_messages 3 (record (push_pad_frames fresh_input pad_frames) {
      input_pad_socket = map request (11 ∷ 12 ∷ []);
    }))
unfolding avt_input
check_messages-Served_example =
    check_messages-Served fresh_input (11 ∷ 12 ∷ []) pad_frames 3 (omega arith) refl
      pad_frames-IsPadFrame refl (omega arith)

-- At 8 kbit/s a frame has 24 bytes.
accepted_8 : (set_dab_plus_parameters fresh_input 8 1 48000 false false).0 ≡ 0
unfolding set_dab_plus_parameters
accepted_8 = refl

avt_input-IsReady_example :
    IsReady 24 (assembly (set_dab_plus_parameters fresh_input 8 1 48000 false false).1) []
avt_input-IsReady_example = avt_input-IsReady [] (b'u' ∷ []) 9000 4 8 1 48000 false false accepted_8

-- Frame 1255 arrives twice, with an RTP header and without, between other datagrams.
abbrev arrivals : List Arrival
arrivals =
    record { bytes = sti_bytes first_frame; time = 100 }
    ∷ record { bytes = 1 ∷ 2 ∷ []; time = 101 }
    ∷ record { bytes = rtp_bytes header ++ sti_bytes first_frame; time = 102 }
    ∷ []

abbrev small_encoder : AvtInput
small_encoder = record (set_dab_plus_parameters fresh_input 8 1 48000 false false).1 {
  input_socket = arrivals;
}
