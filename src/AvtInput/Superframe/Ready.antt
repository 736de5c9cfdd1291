-- ===== src/AvtInput/Superframe/Ready.antt =====
-- The invariant of the assembly of superframes.
use odr_source_companion.Base.{
  ℕ, zero, suc, if◌then◌else◌, ◌++◌, ◌*◌, ◌%◌, ◌≤◌, ◌<◌, ltb, ◌==◌, ◌&&◌, Bool, true, Bool-cases,
  inl, inr, ◌⊎◌, List, [], ◌∷◌, map, length, get_or, take, joined, some, ◌≡◌, refl, ◌∙◌,
}
use odr_source_companion.OrderedQueue.{OrderedQueue, OrderedQueueData}
use odr_source_companion.OrderedQueue.Stock.{lookup}
use odr_source_companion.OrderedQueue.Invariant.{IsValid}
use odr_source_companion.AvtInput.{
  AvtInput, UdpPacket, FrameType, type_sti, type_sti_rtp, type_cant_extract,
}
use odr_source_companion.AvtInput.Datagram.{info}
use odr_source_companion.AvtInput.Pad.{
  check_message, check_messages, interpret_message, send_pad_frame, receive_pad, send_from,
  receive_from,
}

-- The members that the assembly reads and writes.
pub record Assembly : Type 0 where
  pub ordered : OrderedQueue
  pub frame_size : ℕ
  pub aligned : Bool
  pub frame : List ℕ
  pub count : ℕ
  pub filled : ℕ

abbrev pub assembly : AvtInput → Assembly
assembly self = record {
  ordered = self.ordered;
  frame_size = self.dab24ms_frame_size;
  aligned = self.frame_aligned;
  frame = self.current_frame;
  count = self.nb_frames;
  filled = self.current_frame_size;
}

-- A frame with the index that it had in the queue.
abbrev pub Part : Type 0
Part = ℕ × OrderedQueueData

abbrev pub bytes_of : List Part → List ℕ
bytes_of parts = joined (map (λ (p : Part). p.1.buf) parts)

-- The indexes, modulo 5, count from `n`.
abbrev pub InPlace : ℕ → List Part → Type 0
InPlace n [] = Unit
InPlace n (p ∷ ps) = (p.0 % 5 ≡ n) × InPlace (suc n) ps

-- What the parts become with one more: it goes behind them if its index counts on, and otherwise none
-- is left.
abbrev pub with_part : List Part → Part → List Part
with_part parts p = if p.0 % 5 == length parts then parts ++ p ∷ [] else []

-- What they become with all of these, one after the other.
abbrev pub collect : List Part → List Part → List Part
collect parts [] = parts
collect parts (p ∷ ps) = collect (with_part parts p) ps

-- Every frame in the queue has `size` bytes.
abbrev pub AllSized : ℕ → OrderedQueue → Type 0
AllSized size q = (j : ℕ) (d : OrderedQueueData) → lookup j q.stock ≡ some d → length d.buf ≡ size

-- The buffer has room for five frames and holds `parts`, each in its place; an object that is not
-- aligned holds none.
pub record IsReady (expected : ℕ) (a : Assembly) (parts : List Part) : Type 0 where
  pub same_size : a.frame_size ≡ expected
  pub queue_valid : IsValid a.ordered
  pub queue_sized : AllSized a.frame_size a.ordered
  pub size_pos : 0 < a.frame_size
  pub room : length a.frame ≡ 5 * a.frame_size
  pub counted : length parts ≡ a.count
  pub few : a.count ≤ 5
  pub size_filled : a.filled ≡ a.count * a.frame_size
  pub content : take a.filled a.frame ≡ bytes_of parts
  pub in_place : InPlace 0 parts
  pub none_unaligned : (a.aligned ≡ true) ⊎ (a.count ≡ 0)

-- Messages do not touch the assembly.
assembly-send_from :
    (self : AvtInput) (frames : List (List ℕ)) → assembly (send_from self frames) ≡ assembly self
assembly-send_from self [] = refl
assembly-send_from self (frame ∷ frames) = refl

assembly-receive_from :
    (self : AvtInput) (packets : List UdpPacket)
    → assembly (receive_from self packets) ≡ assembly self
assembly-receive_from self [] = refl
assembly-receive_from self (packet ∷ packets) = refl

assembly-receive_pad : (self : AvtInput) → assembly (receive_pad self) ≡ assembly self
unfolding receive_pad
assembly-receive_pad self = assembly-receive_from self self.input_pad_socket

assembly-interpret_message :
    (self : AvtInput) (data' : List ℕ) → assembly (interpret_message self data') ≡ assembly self
unfolding interpret_message send_pad_frame
assembly-interpret_message self data' = elim (Bool-cases (ltb (length data') 2)) [
  | inl e ↦ rw e refl
  | inr e ↦ elim (Bool-cases (get_or data' 0 0 == 0xFD && get_or data' 1 0 == 0x17)) [
    | inl f ↦ rw (e, f) (assembly-send_from self self.pad_frame_queue)
    | inr f ↦ rw (e, f) refl
  ]
]

pub assembly-check_message : (self : AvtInput) → assembly (check_message self).1 ≡ assembly self
unfolding check_message
assembly-check_message self =
    let self' = receive_pad self in
    elim (Bool-cases (length self'.pad_packet.buffer == 0)) [
      | inl e ↦ rw (e, check_message) (assembly-receive_pad self)
      | inr e ↦
          rw (e, check_message)
            (assembly-interpret_message self' self'.pad_packet.buffer ∙ assembly-receive_pad self)
    ]

pub assembly-check_messages :
    (fuel : ℕ) (self : AvtInput) → assembly (check_messages fuel self) ≡ assembly self
unfolding check_messages
assembly-check_messages zero self = refl
assembly-check_messages (suc fuel) self = elim (Bool-cases (check_message self).0) [
  | inl e ↦
      rw (e, check_messages)
        (assembly-check_messages fuel (check_message self).1 ∙ assembly-check_message self)
  | inr e ↦ rw (e, check_messages) (assembly-check_message self)
]

pub assembly-info :
    (self : AvtInput) (type : FrameType) (size : ℕ) → assembly (info self type size) ≡ assembly self
unfolding info
assembly-info self type_sti size = refl
assembly-info self type_sti_rtp size = refl
assembly-info self type_cant_extract size = refl
