-- ===== src/Outputs.antt =====
-- src/Outputs.cpp and src/Outputs.h: what the class Base keeps, and the ZeroMQ output.
pub mod Zmq
pub mod Edi
use odr_source_companion.Base.{
  ℕ, ◌+◌, ◌/◌, ◌^◌, u8, u16, u32, ◌==◌, if◌then◌else◌, Bool, true, false, List, [], ◌∷◌, ◌++◌,
  length, take, replicate,
}

-- `Base`; an `int16_t` is its bit pattern, below 2 ^ 16.
pub record AudioLevels : Type 0 where
  pub m_audio_left : ℕ
  pub m_audio_right : ℕ

abbrev pub update_audio_levels : AudioLevels → ℕ → ℕ → AudioLevels
update_audio_levels self audiolevel_left audiolevel_right = record {
  m_audio_left = audiolevel_left;
  m_audio_right = audiolevel_right;
}

pub data CodecSelection : Type 0 where
  dabplus mpeg_layer_2 : CodecSelection

-- `sent` is what the socket took.
pub record ZmqOutput : Type 0 where
  pub levels : AudioLevels
  pub m_bitrate : ℕ
  pub m_encoder : CodecSelection
  pub m_framebuf : List ℕ
  pub sent : List (List ℕ)

abbrev pub set_encoder_type : ZmqOutput → CodecSelection → ℕ → ZmqOutput
set_encoder_type self enc bitrate = record self { m_encoder = enc; m_bitrate = bitrate }

abbrev pub zmq_encoder : CodecSelection → ℕ
zmq_encoder dabplus = 1
zmq_encoder mpeg_layer_2 = 2

abbrev pub zmq_header_size : ℕ
zmq_header_size = 12

-- The fields stand in the order of the bytes in memory, the lowest first.
abbrev pub little16 : ℕ → List ℕ
little16 n = u8 n ∷ u8 (n / 2 ^ 8) ∷ []

abbrev pub little32 : ℕ → List ℕ
little32 n = u8 n ∷ u8 (n / 2 ^ 8) ∷ u8 (n / 2 ^ 16) ∷ u8 (n / 2 ^ 24) ∷ []

-- `zmq_frame_header_t`, packed.
abbrev pub zmq_frame_header : ZmqOutput → ℕ → List ℕ
zmq_frame_header self len =
    little16 1
    ++ (little16 (zmq_encoder self.m_encoder)
        ++ (little32 (u32 len)
            ++ (little16 self.levels.m_audio_left ++ little16 self.levels.m_audio_right)))

-- What `send` of the vendored binding does with a message: the socket takes it; or it cannot take it
-- now (EAGAIN), and the call returns an empty result; or it throws.
pub data ZmqSend : Type 0 where
  message_taken would_block send_throws : ZmqSend

-- `buf` has `len` bytes; header and data fill the whole of `m_framebuf`. The result of `send` is not
-- looked at: a message that would block is lost, and true is returned.
unfoldable pub write_frame : ZmqOutput → ZmqSend → List ℕ → ℕ → Bool × ZmqOutput
write_frame self message_taken buf len =
    let framebuf = zmq_frame_header self len ++ take len buf in
    (
      true,
      record self {
        m_framebuf = framebuf;
        sent = self.sent ++ take (zmq_header_size + u32 len) framebuf ∷ [];
      },
    )
write_frame self would_block buf len =
    (true, record self { m_framebuf = zmq_frame_header self len ++ take len buf })
write_frame self send_throws buf len =
    (false, record self { m_framebuf = zmq_frame_header self len ++ take len buf })
