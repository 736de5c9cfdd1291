-- ===== src/AvtInput/Pad/Requests.antt =====
-- The PAD protocol seen from the encoder: what it asks for, and what it reads.
use odr_source_companion.Base.{
  ℕ, zero, suc, ◌+◌, ◌≤◌, ◌<◌, u8, ◌==◌, ◌&&◌, if◌then◌else◌, true, false, List, [], ◌∷◌, ◌++◌, map,
  length, get_or, drop, All, ==_iff, append_assoc, append-nil, Option, none, some, ◌≡◌, refl, ap,
  ap₂, sym, ◌∙◌, arith, lt→ltb, length-map,
}
use mathlib.Core.List.{reverse, reverse_aux}
use odr_source_companion.AvtInput.{AvtInput, UdpPacket}
use odr_source_companion.AvtInput.Pad.{
  push_pad_frame, provision, check_message, check_messages, interpret_message, send_pad_frame,
  receive_pad,
}

-- A request for one PAD frame.
abbrev pub request : ℕ → UdpPacket
request address = record { address = address; buffer = 0xFD ∷ 0x17 ∷ [] }

-- Both sizes of a provision message are checked.
unfoldable pub read_provision : List ℕ → Option (List ℕ)
read_provision bytes =
    if get_or bytes 0 0 == 0xFD
      && (get_or bytes 1 0 == 0x18
          && (get_or bytes 2 0 == get_or bytes 4 0 + 2
              && (get_or bytes 3 0 == 0xAD && length (drop 5 bytes) == get_or bytes 4 0)))
    then some (drop 5 bytes)
    else none

abbrev pub read_reply : UdpPacket → ℕ × Option (List ℕ)
read_reply packet = (packet.address, read_provision packet.buffer)

-- Each address with its frame.
abbrev pub replies : List ℕ → List (List ℕ) → List (ℕ × Option (List ℕ))
replies [] frames = []
replies (address ∷ addresses) [] = []
replies (address ∷ addresses) (frame ∷ frames) = (address, some frame) ∷ replies addresses frames

-- Frames of at most 253 bytes, whose sizes the message has room for.
abbrev pub FitsMessage : List ℕ → Type 0
FitsMessage frame = length frame ≤ 253

read_provision-provision :
    (frame : List ℕ) → FitsMessage frame → read_provision (provision frame) ≡ some frame
unfolding read_provision
read_provision-provision frame h =
    let sizes : (u8 (length frame + 2) == u8 (length frame) + 2) ≡ true =
      (==_iff _ _).1 (omega arith) in
    let whole : (length frame == u8 (length frame)) ≡ true = (==_iff _ _).1 (omega arith) in
    rw (sizes, whole) refl

-- An object with these requests and frames waiting.
abbrev waiting_for : AvtInput → List ℕ → List (List ℕ) → AvtInput
waiting_for self addresses frames = record self {
  input_pad_socket = map request addresses;
  pad_frame_queue = frames;
}

pub record Served (self : AvtInput) (addresses : List ℕ) (frames rest : List (List ℕ))
    (after : AvtInput) : Type 0 where
  pub left : after.pad_frame_queue ≡ rest
  pub no_request : after.input_pad_socket ≡ []
  pub replied : List UdpPacket
  pub appended : after.pad_sent ≡ self.pad_sent ++ replied
  pub read : map read_reply replied ≡ replies addresses frames

serve :
    (self : AvtInput) (addresses : List ℕ) (frames rest : List (List ℕ)) (fuel : ℕ)
    → length addresses ≡ length frames
    → length addresses < fuel
    → All FitsMessage frames
    → Served self addresses frames rest
        (check_messages fuel (waiting_for self addresses (frames ++ rest)))
unfolding check_messages check_message receive_pad interpret_message send_pad_frame
serve self addresses frames rest zero e h fit = absurd (omega arith)
serve self [] [] rest (suc fuel) e h fit = record {
  left = refl;
  no_request = refl;
  replied = [];
  appended = sym (append-nil self.pad_sent);
  read = refl;
}
serve self [] (f ∷ fs) rest (suc fuel) e h fit = absurd (omega arith)
serve self (a ∷ as') [] rest (suc fuel) e h fit = absurd (omega arith)
serve self (a ∷ as') (f ∷ fs) rest (suc fuel) e h fit =
    let packet : UdpPacket = record { address = a; buffer = provision f } in
    let next = record self { pad_packet = packet; pad_sent = self.pad_sent ++ packet ∷ [] } in
    let s = serve next as' fs rest fuel (omega arith) (omega arith) fit.1 in
    record {
      left = s.left;
      no_request = s.no_request;
      replied = packet ∷ s.replied;
      appended = s.appended ∙ append_assoc self.pad_sent (packet ∷ []) s.replied;
      read =
          ap₂ ◌∷◌ (ap (λ (o : Option (List ℕ)). (a, o)) (read_provision-provision f fit.0)) s.read;
    }

-- PAD frames that are pushed one after the other.
unfoldable pub push_pad_frames : AvtInput → List (List ℕ) → AvtInput
push_pad_frames self [] = self
push_pad_frames self (buf ∷ bufs) = push_pad_frames (push_pad_frame self buf) bufs

length-reverse : (buf : List ℕ) → length (reverse buf) ≡ length buf
length-reverse buf = go buf [] ∙ omega arith
  where
    go : (xs ys : List ℕ) → length (reverse_aux xs ys) ≡ length xs + length ys
    go [] ys = omega arith
    go (x ∷ xs) ys = omega (arith, go xs (x ∷ ys))

-- Bytes from 1 to 253.
abbrev pub IsPadFrame : List ℕ → Type 0
IsPadFrame buf = (0 < length buf) × (length buf ≤ 253)

reversed-FitsMessage :
    (bufs : List (List ℕ)) → All IsPadFrame bufs → All FitsMessage (map reverse bufs)
reversed-FitsMessage [] h = tt
reversed-FitsMessage (buf ∷ bufs) h =
    (omega (arith, length-reverse buf, h.0.1), reversed-FitsMessage bufs h.1)

push_pad_frames-queue :
    (self : AvtInput) (bufs : List (List ℕ))
    → 0 < self.pad_port
    → All IsPadFrame bufs
    → push_pad_frames self bufs
      ≡ record self { pad_frame_queue = self.pad_frame_queue ++ map reverse bufs }
unfolding push_pad_frames push_pad_frame
push_pad_frames-queue self [] pos h =
    ap (λ (q : List (List ℕ)). record self { pad_frame_queue = q }) (sym (append-nil _))
push_pad_frames-queue self (buf ∷ bufs) pos h =
    let port : (self.pad_port == 0) ≡ false = ground arith in
    let rest =
      push_pad_frames-queue
        (record self { pad_frame_queue = self.pad_frame_queue ++ reverse buf ∷ [] }) bufs pos h.1 in
    rw (port, lt→ltb 0 (length buf) h.0.0, push_pad_frames)
      (rest
        ∙ ap (λ (q : List (List ℕ)). record self { pad_frame_queue = q })
            (append_assoc self.pad_frame_queue (reverse buf ∷ []) (map reverse bufs)))

-- With a PAD port, an empty queue and frames of 1 to 253 bytes: if the frames are pushed and the
-- encoder asks for as many, then one round of `_checkMessage` calls answers every request, at the
-- address it came from, with the next frame in the order of the pushes, its bytes reversed, in a
-- message whose sizes are right, and leaves no frame and no request.
pub check_messages-Served :
    (self : AvtInput) (addresses : List ℕ) (bufs : List (List ℕ)) (fuel : ℕ)
    → 0 < self.pad_port
    → self.pad_frame_queue ≡ []
    → All IsPadFrame bufs
    → length addresses ≡ length bufs
    → length addresses < fuel
    → Served self addresses (map reverse bufs) [] (
        check_messages fuel
          (record (push_pad_frames self bufs) { input_pad_socket = map request addresses }))
check_messages-Served self addresses bufs fuel pos empty h e enough =
    let pushed = push_pad_frames-queue self bufs pos h in
    let queue : self.pad_frame_queue ++ map reverse bufs ≡ map reverse bufs ++ [] =
      ap (λ (q : List (List ℕ)). q ++ map reverse bufs) empty ∙ sym (append-nil _) in
    let same : (record (push_pad_frames self bufs) { input_pad_socket = map request addresses })
        ≡ waiting_for self addresses (map reverse bufs ++ []) =
      rw (pushed, queue) refl in
    rw same (
      serve self addresses (map reverse bufs) [] fuel (omega (arith, e, length-map reverse bufs))
        enough (reversed-FitsMessage bufs h))
