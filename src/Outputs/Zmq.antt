-- ===== src/Outputs/Zmq.antt =====
-- The messages of the ZeroMQ output, read by the receiver's rules.
use odr_source_companion.Base.{
  ℕ, ◌+◌, ◌*◌, ◌^◌, ◌<◌, ◌≤◌, u8, u32, ◌==◌, ◌&&◌, if◌then◌else◌, true, false, List, [], ◌∷◌, ◌++◌,
  length, length-take, take, take-all, drop, get_or, Option, none, some, ==_iff, ◌/◌, ◌≡◌, refl, ap,
  arith,
}
use odr_source_companion.Outputs.{
  ZmqOutput, CodecSelection, message_taken, would_block, send_throws, dabplus, mpeg_layer_2,
  little16, little32, zmq_encoder, zmq_frame_header, write_frame,
}

pub record ZmqFrame : Type 0 where
  pub encoder : ℕ
  pub audiolevel_left : ℕ
  pub audiolevel_right : ℕ
  pub data' : List ℕ

abbrev field16 : List ℕ → ℕ → ℕ
field16 bytes i = get_or bytes i 0 + get_or bytes (i + 1) 0 * 256

abbrev datasize : List ℕ → ℕ
datasize bytes = field16 bytes 4 + field16 bytes 6 * 2 ^ 16

-- Version 1, and exactly the bytes that the header announces.
unfoldable pub read_frame : List ℕ → Option ZmqFrame
read_frame bytes =
    if field16 bytes 0 == 1 && length bytes == 12 + datasize bytes
    then some (record {
      encoder = field16 bytes 2;
      audiolevel_left = field16 bytes 8;
      audiolevel_right = field16 bytes 10;
      data' = drop 12 bytes;
    })
    else none

read_frame-message :
    (encoder n left right : ℕ) (bytes : List ℕ)
    → encoder < 2 ^ 16
    → n < 2 ^ 32
    → length bytes ≡ n
    → left < 2 ^ 16
    → right < 2 ^ 16
    → read_frame (
        little16 1
        ++ (little16 encoder ++ (little32 (u32 n) ++ (little16 left ++ (little16 right ++ bytes)))))
      ≡ some (record {
        encoder = encoder;
        audiolevel_left = left;
        audiolevel_right = right;
        data' = bytes;
      })
unfolding read_frame
read_frame-message encoder n left right bytes he hn size hl hr =
    let message =
      little16 1
      ++ (little16 encoder ++ (little32 (u32 n) ++ (little16 left ++ (little16 right ++ bytes)))) in
    let whole : (length message == 12 + datasize message) ≡ true =
      (==_iff _ _).1 (omega (arith, size, hn)) in
    let a : u8 encoder + u8 (encoder / 2 ^ 8) * 256 ≡ encoder = omega (arith, he) in
    let b : u8 left + u8 (left / 2 ^ 8) * 256 ≡ left = omega (arith, hl) in
    let c : u8 right + u8 (right / 2 ^ 8) * 256 ≡ right = omega (arith, hr) in
    rw (whole, a, b, c) refl

zmq_encoder-lt : (codec : CodecSelection) → zmq_encoder codec < 2 ^ 16
zmq_encoder-lt dabplus = omega arith
zmq_encoder-lt mpeg_layer_2 = omega arith

-- For `len` bytes that `buf` has, fewer than 2 ^ 32, and levels of 16 bits: if the socket takes the
-- message, the call returns true and the receiver reads from the message the codec, the two levels
-- and the bytes. If the socket cannot take it now, nothing is sent and the call returns true as well;
-- if `send` throws, nothing is sent and it returns false.
pub write_frame-read :
    (self : ZmqOutput) (buf : List ℕ) (len : ℕ)
    → len ≤ length buf
    → len < 2 ^ 32
    → self.levels.m_audio_left < 2 ^ 16
    → self.levels.m_audio_right < 2 ^ 16
    → (message : List ℕ) × ((write_frame self message_taken buf len).0 ≡ true)
      × ((write_frame self message_taken buf len).1.sent ≡ self.sent ++ message ∷ [])
      × (read_frame message
          ≡ some (record {
            encoder = zmq_encoder self.m_encoder;
            audiolevel_left = self.levels.m_audio_left;
            audiolevel_right = self.levels.m_audio_right;
            data' = take len buf;
          }))
      × ((write_frame self would_block buf len).0 ≡ true)
      × ((write_frame self would_block buf len).1.sent ≡ self.sent)
      × ((write_frame self send_throws buf len).0 ≡ false)
      × ((write_frame self send_throws buf len).1.sent ≡ self.sent)
unfolding write_frame
write_frame-read self buf len enough small left right =
    let message = zmq_frame_header self len ++ take len buf in
    let size : length (take len buf) ≡ len = omega (arith, length-take {0} len buf) in
    let all : take (12 + u32 len) message ≡ message =
      take-all (12 + u32 len) message (omega (arith, size)) in
    (
      message,
      refl,
      ap (λ (m : List ℕ). self.sent ++ m ∷ []) all,
      read_frame-message (zmq_encoder self.m_encoder) len self.levels.m_audio_left
          self.levels.m_audio_right (take len buf) (zmq_encoder-lt self.m_encoder) small size left
          right,
      refl,
      refl,
      refl,
      refl,
    )
