-- ===== src/AvtInput/Superframe/Messages.antt =====
-- A message that is checked takes at most a packet out of its socket, and nothing else.
use odr_source_companion.Base.{
  ℕ, suc, ◌≤◌, ◌<◌, ltb, ◌==◌, ◌&&◌, Bool, false, Bool-cases, inl, inr, ◌⊎◌, List, [], ◌∷◌, length,
  get_or, not, ◌≡◌, refl, ap, sym, subst, arith,
}
use odr_source_companion.AvtInput.{
  AvtInput, Arrival, UdpPacket, FrameType, type_sti, type_sti_rtp, type_cant_extract,
}
use odr_source_companion.AvtInput.Datagram.{info}
use odr_source_companion.AvtInput.Pad.{
  check_message, receive_pad, receive_from, interpret_message, send_pad_frame, send_from,
}

-- `_info` and the RTP sequence number stand apart from the sockets.
pub record Sockets : Type 0 where
  pub input : List Arrival
  pub pad : List UdpPacket
  pub frame_size : ℕ

abbrev pub sockets : AvtInput → Sockets
sockets self = record {
  input = self.input_socket;
  pad = self.input_pad_socket;
  frame_size = self.dab24ms_frame_size;
}

pub sockets-info :
    (self : AvtInput) (type : FrameType) (n : ℕ) → sockets (info self type n) ≡ sockets self
unfolding info
sockets-info self type_sti n = refl
sockets-info self type_sti_rtp n = refl
sockets-info self type_cant_extract n = refl

sockets-interpret_message :
    (self : AvtInput) (data' : List ℕ) → sockets (interpret_message self data') ≡ sockets self
unfolding interpret_message send_pad_frame
sockets-interpret_message self data' = elim (Bool-cases (ltb (length data') 2)) [
  | inl e ↦ rw e refl
  | inr e ↦ elim (Bool-cases (get_or data' 0 0 == 0xFD && get_or data' 1 0 == 0x17)) [
    | inl f ↦ rw (e, f) (send self.pad_frame_queue)
    | inr f ↦ rw (e, f) refl
  ]
]
  where
    send : (frames : List (List ℕ)) → sockets (send_from self frames) ≡ sockets self
    send [] = refl
    send (frame ∷ frames) = refl

sockets-check_message :
    (self : AvtInput) → sockets (check_message self).1 ≡ sockets (receive_pad self)
unfolding check_message
sockets-check_message self = elim (Bool-cases (length (receive_pad self).pad_packet.buffer == 0)) [
  | inl e ↦ rw (e, check_message) refl
  | inr e ↦
      rw (e, check_message)
        (sockets-interpret_message (receive_pad self) (receive_pad self).pad_packet.buffer)
]

-- A message that was received left its socket.
pub data IsFewer (before : Sockets) (received : Bool) (after : Sockets) : Type 0 where
  none_left : received ≡ false → after ≡ before → IsFewer before received after
  one_less :
      after.input ≡ before.input
      → after.frame_size ≡ before.frame_size
      → suc (length after.pad) ≡ length before.pad
      → IsFewer before received after

was_received :
    (self : AvtInput)
    → (check_message self).0 ≡ not (length (receive_pad self).pad_packet.buffer == 0)
unfolding check_message
was_received self = elim (Bool-cases (length (receive_pad self).pad_packet.buffer == 0)) [
  | inl e ↦ rw (e, check_message) refl
  | inr e ↦ rw (e, check_message) refl
]

receive_from-IsFewer :
    (self : AvtInput) (packets : List UdpPacket)
    → IsFewer
        (record { input = self.input_socket; pad = packets; frame_size = self.dab24ms_frame_size })
        (not (length (receive_from self packets).pad_packet.buffer == 0))
        (sockets (receive_from (record self { input_pad_socket = packets }) packets))
receive_from-IsFewer self [] = none_left refl refl
receive_from-IsFewer self (packet ∷ packets) = one_less refl refl refl

pub check_message-IsFewer :
    (self : AvtInput)
    → IsFewer (sockets self) (check_message self).0 (sockets (check_message self).1)
unfolding receive_pad
check_message-IsFewer self =
    subst (IsFewer (sockets self) (check_message self).0) (sym (sockets-check_message self)) (
      subst (λ (b : Bool). IsFewer (sockets self) b (sockets (receive_pad self)))
        (sym (was_received self)) (receive_from-IsFewer self self.input_pad_socket))

pub data Fewer (before : Sockets) (received : Bool) (after : Sockets) : Type 0 where
  fewer :
      after.input ≡ before.input
      → after.frame_size ≡ before.frame_size
      → length after.pad ≤ length before.pad
      → (received ≡ false) ⊎ (length after.pad < length before.pad)
      → Fewer before received after

pub IsFewer-Fewer :
    {before : Sockets} {received : Bool} {after : Sockets}
    → IsFewer before received after
    → Fewer before received after
IsFewer-Fewer {before} {received} {after} (none_left e same) =
    fewer (ap (λ s. s.input) same) (ap (λ s. s.frame_size) same)
      (omega (arith, ap (λ (s : Sockets). length s.pad) same)) (inl e)
IsFewer-Fewer (one_less e f h) = fewer e f (omega arith) (inr (omega arith))
