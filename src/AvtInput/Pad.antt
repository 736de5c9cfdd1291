-- ===== src/AvtInput/Pad.antt =====
-- src/AVTInput.cpp: the PAD frames that wait for the encoder, and the messages by which it asks for
-- them.
pub mod Requests
use odr_source_companion.Base.{
  ℕ, zero, suc, ◌+◌, u8, ltb, leb, ◌==◌, ◌&&◌, if◌then◌else◌, Bool, true, false, List, [], ◌∷◌,
  ◌++◌, length, get_or, take,
}
use mathlib.Core.List.{reverse}
use odr_source_companion.AvtInput.{AvtInput, UdpPacket}

abbrev pub max_pad_frame_queue_size : ℕ
max_pad_frame_queue_size = 6

-- The encoder gets the bytes in the reverse order.
unfoldable pub push_pad_frame : AvtInput → List ℕ → AvtInput
push_pad_frame self buf =
    if self.pad_port == 0
    then self
    else if ltb 0 (length buf)
    then record self { pad_frame_queue = self.pad_frame_queue ++ reverse buf ∷ [] }
    else self

abbrev pub pad_queue_full : AvtInput → Bool
pad_queue_full self = leb max_pad_frame_queue_size (length self.pad_frame_queue)

-- The PAD provision message.
abbrev pub provision : List ℕ → List ℕ
provision frame = 0xFD ∷ 0x18 ∷ u8 (length frame + 2) ∷ 0xAD ∷ u8 (length frame) ∷ frame

-- The packet that was received last has the address.
abbrev pub send_from : AvtInput → List (List ℕ) → AvtInput
send_from self [] = self
send_from self (frame ∷ frames) =
    let packet = record self.pad_packet { buffer = provision frame } in
    record self {
      pad_packet = packet;
      pad_frame_queue = frames;
      pad_sent = self.pad_sent ++ packet ∷ [];
    }

unfoldable pub send_pad_frame : AvtInput → AvtInput
send_pad_frame self = send_from self self.pad_frame_queue

unfoldable pub interpret_message : AvtInput → List ℕ → AvtInput
unfolding send_pad_frame
interpret_message self data' =
    if ltb (length data') 2
    then self
    else if get_or data' 0 0 == 0xFD && get_or data' 1 0 == 0x17
    then send_pad_frame self
    else self

-- The next packet of the socket is kept, also if there is none.
abbrev pub receive_from : AvtInput → List UdpPacket → AvtInput
receive_from self [] = record self { pad_packet = record { address = 0; buffer = [] } }
receive_from self (packet ∷ packets) = record self {
  pad_packet = record packet { buffer = take 2048 packet.buffer };
  input_pad_socket = packets;
}

unfoldable pub receive_pad : AvtInput → AvtInput
receive_pad self = receive_from self self.input_pad_socket

-- True if there was a message.
unfoldable pub check_message : AvtInput → Bool × AvtInput
unfolding receive_pad
check_message self =
    let self' = receive_pad self in
    if length self'.pad_packet.buffer == 0
    then (false, self')
    else (true, interpret_message self' self'.pad_packet.buffer)

-- `while (_checkMessage()) {};`, a round for each packet that waits and one more.
unfoldable pub check_messages : ℕ → AvtInput → AvtInput
check_messages zero self = self
check_messages (suc fuel) self =
    let rest = check_messages fuel (check_message self).1 in
    if (check_message self).0 then rest else (check_message self).1

-- `_purgeMessages` drops what waits, up to an empty packet; its counter is only printed.
unfoldable pub purge_messages : ℕ → AvtInput → AvtInput
purge_messages zero self = self
purge_messages (suc fuel) self =
    let self' = receive_pad self in
    let rest = purge_messages fuel self' in
    if length self'.pad_packet.buffer == 0 then self' else rest
