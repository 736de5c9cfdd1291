-- ===== src/AvtInput.antt =====
-- src/AVTInput.cpp and src/AVTInput.h: the object, and the parameters of the encoder. A socket is the
-- list of the datagrams that wait in it; what is sent is appended to a list.
pub mod Parameters
pub mod Datagram
pub mod Pad
pub mod Superframe
pub mod Uri
use odr_source_companion.Base.{
  ℕ, ◌+◌, ◌*◌, ◌/◌, u8, ltb, ◌==◌, if◌then◌else◌, Bool, true, false, not, ◌&&◌, ◌||◌, List, [],
  Option, none, some, ◌∷◌, ◌++◌, length, replicate,
}
use odr_source_companion.OrderedQueue
use odr_source_companion.OrderedQueue.{OrderedQueue, Timestamp}

abbrev pub max_queue_size : ℕ
max_queue_size = 5000

-- `Socket::UDPPacket`; the address is that of the other side, 0 in a new packet.
pub record UdpPacket : Type 0 where
  pub address : ℕ
  pub buffer : List ℕ

-- A datagram that arrived, and the time at which it is read.
pub record Arrival : Type 0 where
  pub bytes : List ℕ
  pub time : Timestamp

pub data FrameType : Type 0 where
  type_sti type_sti_rtp type_cant_extract : FrameType

-- `_audioMode` counts from mono, mono with SBR, stereo, stereo with SBR, to stereo with SBR and PS;
-- `_dac` is 1 for 48 kHz; `previous_rtp_index` is `none` where the source has -1. The last five
-- fields are the sockets: what waits, and what was sent.
pub record AvtInput : Type 0 where
  pub input_uri : List ℕ
  pub output_uri : List ℕ
  pub pad_port : ℕ
  pub jitter_buffer_size : ℕ
  pub pad_packet : UdpPacket
  pub ordered : OrderedQueue
  pub pad_frame_queue : List (List ℕ)
  pub sub_channel_index : ℕ
  pub bit_rate : ℕ
  pub audio_mode : ℕ
  pub mono_mode : ℕ
  pub dac : ℕ
  pub dab24ms_frame_size : ℕ
  pub frame_aligned : Bool
  pub current_frame : List ℕ
  pub nb_frames : ℕ
  pub expected_frame_index : ℕ
  pub previous_rtp_index : Option ℕ
  pub frame_zero_timestamp : Timestamp
  pub current_frame_size : ℕ
  pub last_info_frame_type : FrameType
  pub last_info_size : ℕ
  pub info_nb_frame : ℕ
  pub input_socket : List Arrival
  pub input_pad_socket : List UdpPacket
  pub sent : List (List ℕ)
  pub pad_sent : List UdpPacket

-- A new object, at 64 kbit/s in mono. No socket is open.
unfoldable pub avt_input : List ℕ → List ℕ → ℕ → ℕ → AvtInput
avt_input input_uri output_uri pad_port jitter_buffer_size = record {
  input_uri = input_uri;
  output_uri = output_uri;
  pad_port = pad_port;
  jitter_buffer_size = jitter_buffer_size;
  pad_packet = record { address = 0; buffer = replicate 2048 0 };
  ordered = OrderedQueue.new max_queue_size jitter_buffer_size;
  pad_frame_queue = [];
  sub_channel_index = 64 / 8;
  bit_rate = 64 * 1000;
  audio_mode = 0;
  mono_mode = 0;
  dac = 1;
  dab24ms_frame_size = 64 * 3;
  frame_aligned = false;
  current_frame = [];
  nb_frames = 0;
  expected_frame_index = 0;
  previous_rtp_index = none;
  frame_zero_timestamp = 0;
  current_frame_size = 0;
  last_info_frame_type = type_cant_extract;
  last_info_size = 0;
  info_nb_frame = 0;
  input_socket = [];
  input_pad_socket = [];
  sent = [];
  pad_sent = [];
}

unfoldable pub send_ctrl_message : AvtInput → AvtInput
send_ctrl_message self = if length self.output_uri == 0 then self else record self {
  sent =
      self.sent
      ++ (0xFD
          ∷ 0x07
          ∷ u8 self.sub_channel_index
          ∷ u8 self.audio_mode
          ∷ u8 self.dac
          ∷ u8 self.mono_mode
          ∷ [])
        ∷ [];
}

abbrev pub audio_mode_of : ℕ → Bool → Bool → ℕ
audio_mode_of channels sbr ps =
    if channels == 1 then (if sbr then 1 else 0) else if ps then 4 else if sbr then 3 else 2

abbrev pub bad_bitrate : ℕ → Bool
bad_bitrate bitrate =
    not (bitrate / 8 * 8 == bitrate) || (ltb (bitrate / 8) 1 || ltb 24 (bitrate / 8))

-- The return value and the object. The numbers are not negative, and `bitrate * 1000` fits an `int`.
unfoldable pub set_dab_plus_parameters : AvtInput → ℕ → ℕ → ℕ → Bool → Bool → ℕ × AvtInput
set_dab_plus_parameters self bitrate channels sample_rate sbr ps =
    let sized = record self {
      sub_channel_index = bitrate / 8;
      bit_rate = bitrate * 1000;
      dab24ms_frame_size = bitrate * 3;
    } in
    let clocked = record sized { dac = if sample_rate == 48000 then 1 else 0 } in
    if bad_bitrate bitrate
    then (1, sized)
    else if not (sample_rate == 48000) && not (sample_rate == 32000)
    then (1, sized)
    else if not (channels == 1) && not (channels == 2)
    then (1, clocked)
    else (
      0,
      send_ctrl_message (record clocked {
        audio_mode = audio_mode_of channels sbr ps;
        ordered = OrderedQueue.new max_queue_size self.jitter_buffer_size;
        current_frame = replicate (bitrate / 8 * 8 * 5 * 3) 0;
      }),
    )
