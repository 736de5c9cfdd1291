-- ===== src/Companion.antt =====
-- src/odr-sourcecompanion.cpp: how the main loop fills the queue of PAD frames, and
-- what it does with a superframe. The clocks that it and the
-- outputs read are functions of the number of the block.
pub mod PadFill
pub mod Blocks
use odr_source_companion.Base.{
  ℕ, zero, suc, ◌+◌, ◌-◌, ltb, get_or, take, Option, none, some, ◌*◌, ◌/◌, ◌%◌, ◌==◌, not,
  if◌then◌else◌, List, length, drop,
}
use odr_source_companion.AvtInput.{AvtInput}
use odr_source_companion.AvtInput.Pad.{push_pad_frame, pad_queue_full}
use odr_source_companion.PadInterface.{PadInterface, PadFailure, Reply, throws, returns, request}
use odr_source_companion.Edi.Result.{Result, ok, err, superframe_size, ◌>>=◌}
use odr_source_companion.Outputs.Edi.{EdiOutput, write_frame}

-- How the loop ends; a pointer before the buffer is undefined.
pub data PadLoop : Type 0 where
  threw : PadFailure → PadLoop
  wrong_pointer out_of_fuel : PadLoop
  filled : PadInterface → AvtInput → PadLoop

-- The last byte is the number of the bytes before it that are PAD.
unfoldable pub take_pad : AvtInput → ℕ → List ℕ → Option AvtInput
take_pad avtinput padlen pad_data =
    let calculated_padlen = get_or pad_data padlen 0 in
    if ltb padlen calculated_padlen
    then none
    else some (
        push_pad_frame avtinput
          (take calculated_padlen (drop (padlen - calculated_padlen) pad_data)))

abbrev pub after_push : (AvtInput → PadLoop) → Option AvtInput → PadLoop
after_push continue none = wrong_pointer
after_push continue (some avtinput) = continue avtinput

abbrev pub after_reply : (PadInterface → AvtInput → PadLoop) → AvtInput → ℕ → Reply → PadLoop
after_reply continue avtinput padlen (throws failure) = threw failure
after_reply continue avtinput padlen (returns pad_data pad_intf) =
    if length pad_data == 0
    then filled pad_intf avtinput
    else if length pad_data == padlen + 1
    then after_push (continue pad_intf) (take_pad avtinput padlen pad_data)
    else filled pad_intf avtinput

-- `while (!avtinput.padQueueFull())`, where `padlen` is not 0.
unfoldable pub fill_pad : ℕ → PadInterface → AvtInput → ℕ → PadLoop
fill_pad zero pad_intf avtinput padlen = out_of_fuel
fill_pad (suc fuel) pad_intf avtinput padlen =
    if not (pad_queue_full avtinput)
    then after_reply (λ pad_intf' avtinput'. fill_pad fuel pad_intf' avtinput' padlen) avtinput
        padlen (request pad_intf padlen)
    else filled pad_intf avtinput

-- The offset of the TAI clock, the time for the version tag, and that of `Sender::write`.
pub record Clocks : Type 0 where
  pub tai_utc_offset : ℕ
  pub now : ℕ
  pub write_time : ℕ

module _ (rs_encode : List ℕ → List ℕ) (clocks : ℕ → Clocks) where
  -- `for (size_t i = 0; i < 5; i++)`, with the rounds that are left; `write_frame` returns true.
  unfoldable pub write_blocks : ℕ → ℕ → EdiOutput → List ℕ → ℕ → Result EdiOutput
  write_blocks zero i self outbuf blocksize = ok self
  write_blocks (suc left) i self outbuf blocksize =
      write_frame rs_encode self (clocks i).tai_utc_offset (clocks i).now (clocks i).write_time
        (drop (i * blocksize) outbuf) blocksize
      >>= λ self'. write_blocks left (suc i) self' outbuf blocksize

  -- The superframe is split into five parts of 24 ms.
  unfoldable pub write_superframe : EdiOutput → List ℕ → ℕ → Result EdiOutput
  write_superframe self outbuf num_out_bytes =
      if not (num_out_bytes % 5 == 0)
      then err superframe_size
      else write_blocks 5 0 self outbuf (num_out_bytes / 5)
