-- ===== src/AvtInput/Superframe.antt =====
-- src/AVTInput.cpp: `_readFrame` and `getNextFrame`, from datagrams to superframes of five frames.
-- `none` is a read past the end of a datagram, a write past the end of the frame, or a loop that
-- does not end.
pub mod Ready
pub mod Copy
pub mod Parts
pub mod Loop
pub mod Messages
pub mod Datagrams
pub mod Reading
pub mod Frames
pub mod Start
use odr_source_companion.Base.{
  ℕ, zero, suc, ◌+◌, ◌%◌, ltb, leb, ◌==◌, ◌&&◌, if◌then◌else◌, Bool, true, false, not, List, [],
  ◌∷◌, ◌++◌, length, take, drop, Option, none, some,
}
use odr_source_companion.OrderedQueue
use odr_source_companion.OrderedQueue.{OrderedQueue, OrderedQueueData, Popped, Timestamp}
use odr_source_companion.AvtInput.{AvtInput, Arrival, type_cant_extract, max_queue_size}
use odr_source_companion.AvtInput.Datagram.{◌>>=◌, Found, info, find_dab_frame_from_udp}
use odr_source_companion.AvtInput.Pad.{check_message, check_messages}

abbrev pub max_avt_frame_size : ℕ
max_avt_frame_size = 1500

-- The bytes that `push` copies.
abbrev pub copy_out : List ℕ → ℕ → ℕ → Option (List ℕ)
copy_out buf index size =
    if ltb (length buf) (index + size) then none else some (take size (drop index buf))

-- A frame of the expected size is filed under its number; one of another size is dropped.
unfoldable pub file_frame : AvtInput → List ℕ → Timestamp → Option Found → Option AvtInput
file_frame self buf ts none = some (info self type_cant_extract 0)
file_frame self buf ts (some f) =
    if f.data_size == self.dab24ms_frame_size
    then (copy_out buf f.index f.data_size >>= λ frame.
        some (record self { ordered = OrderedQueue.push self.ordered f.frame_number frame ts }))
    else some self

unfoldable pub interpret_datagram : AvtInput → List ℕ → Timestamp → Option AvtInput
unfolding file_frame
interpret_datagram self buf ts =
    if ltb self.dab24ms_frame_size (length buf)
    then (find_dab_frame_from_udp self buf >>= λ result. file_frame result.1 buf ts result.0)
    else some (info self type_cant_extract 0)

abbrev pub read_from : AvtInput → List Arrival → Option (Bool × AvtInput)
read_from self [] = some (false, self)
read_from self (arrival ∷ arrivals) =
    let buf = take max_avt_frame_size arrival.bytes in
    let self' = record self { input_socket = arrivals } in
    if length buf == 0
    then some (false, self')
    else interpret_datagram self' buf arrival.time >>= λ self''. some (true, self'')

-- True if data was received.
unfoldable pub read_frame : AvtInput → Option (Bool × AvtInput)
unfolding interpret_datagram
read_frame self = read_from self self.input_socket

abbrev pub after_frame : (AvtInput → Option AvtInput) → Bool × AvtInput → Option AvtInput
after_frame continue (true, self) = continue self
after_frame continue (false, self) = some self

abbrev pub after_message : (AvtInput → Option AvtInput) → Bool × AvtInput → Option AvtInput
after_message continue (true, self) = continue self
after_message continue (false, self) = read_frame self >>= after_frame continue

-- `while (_checkMessage() || _readFrame() );`
unfoldable pub read_all : ℕ → AvtInput → Option AvtInput
unfolding read_frame
read_all zero self = none
read_all (suc fuel) self = after_message (read_all fuel) (check_message self)

-- The `memcpy` behind what `_currentFrame` holds, and the counters.
abbrev pub grown : AvtInput → ℕ → List ℕ → AvtInput
grown self index part =
    let size = self.current_frame_size + length part in
    record self {
      current_frame =
          take self.current_frame_size self.current_frame ++ (part ++ drop size self.current_frame);
      current_frame_size = size;
      nb_frames = self.nb_frames + 1;
      expected_frame_index = (index + 1) % max_queue_size;
    }

abbrev pub add_part : AvtInput → ℕ → List ℕ → Option AvtInput
add_part self index part =
    if ltb (length self.current_frame) (self.current_frame_size + length part)
    then none
    else some (grown self index part)

-- Before alignment only a first part is taken, and sets the time.
abbrev pub take_unaligned : AvtInput → ℕ → OrderedQueueData → Option AvtInput
take_unaligned self index queue_data =
    if index % 5 == 0
    then add_part
        (record self { frame_aligned = true; frame_zero_timestamp = queue_data.capture_timestamp })
        index queue_data.buf
    else some self

-- After it the next part is taken, and any other starts over. A sequence error is only printed.
abbrev pub take_aligned : AvtInput → ℕ → OrderedQueueData → Option AvtInput
take_aligned self index queue_data =
    if index % 5 == self.nb_frames
    then add_part (record self { frame_zero_timestamp = self.frame_zero_timestamp + 24 }) index
        queue_data.buf
    else some (record self {
      nb_frames = 0;
      current_frame_size = 0;
      frame_aligned = false;
      expected_frame_index = 0;
    })

-- The body of the loop, for a frame that `pop` returned.
unfoldable pub take_part : AvtInput → ℕ → OrderedQueueData → Option AvtInput
take_part self index queue_data =
    if not self.frame_aligned
    then take_unaligned self index queue_data
    else take_aligned self index queue_data

-- Messages are looked at between `pop` and the copy. An empty part ends the loop; `pop` returns an
-- index with every other one.
abbrev pub pass_part :
    (AvtInput → Option AvtInput) → AvtInput → List ℕ → Option ℕ → OrderedQueueData → Option AvtInput
pass_part continue self part none queue_data = some self
pass_part continue self part (some index) queue_data =
    if length part == 0
    then some self
    else take_part (check_messages (suc (length self.input_pad_socket)) self) index queue_data
      >>= continue

-- `while (_nbFrames < 5)`; each round takes a frame out of the queue.
unfoldable pub assemble_parts : ℕ → AvtInput → Option AvtInput
unfolding take_part
assemble_parts zero self = none
assemble_parts (suc fuel) self =
    if ltb self.nb_frames 5
    then (OrderedQueue.pop self.ordered >>= λ p.
        pass_part (assemble_parts fuel) (record self { ordered = p.queue }) p.oqd.buf
          p.returned_index p.oqd)
    else some self

-- What is copied to the caller, with the time stamp, and what is left.
unfoldable pub finish : ℕ → AvtInput → Option (List ℕ × Timestamp) × AvtInput
finish buf_size self =
    if self.nb_frames == 5 && leb self.current_frame_size buf_size
    then (
      some (take self.current_frame_size self.current_frame, self.frame_zero_timestamp),
      record self { current_frame_size = 0; nb_frames = 0 },
    )
    else (none, self)

unfoldable pub get_next_frame : AvtInput → ℕ → Option (Option (List ℕ × Timestamp) × AvtInput)
get_next_frame self buf_size =
    read_all (suc (length self.input_pad_socket + length self.input_socket)) self >>= λ self'.
    assemble_parts (suc (length self'.ordered.stock)) self' >>= λ self''.
    some (finish buf_size self'')
