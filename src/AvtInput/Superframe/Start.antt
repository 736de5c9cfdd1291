-- ===== src/AvtInput/Superframe/Start.antt =====
-- A new object whose parameters were accepted can assemble superframes.
use odr_source_companion.Base.{
  ℕ, ◌*◌, ◌/◌, ◌<◌, ◌==◌, not, ◌&&◌, Bool, false, Bool-cases, inl, inr, List, [], none, some,
  length, replicate, length-replicate, ◌≡◌, refl, sym, subst, arith,
}
use odr_source_companion.OrderedQueue.{new}
use odr_source_companion.OrderedQueue.Stock.{lookup}
use odr_source_companion.OrderedQueue.Invariant.{new-IsValid}
use odr_source_companion.AvtInput.{
  AvtInput, avt_input, send_ctrl_message, set_dab_plus_parameters, bad_bitrate,
}
use odr_source_companion.AvtInput.Parameters.{accepted, in_range}
use odr_source_companion.AvtInput.Superframe.Ready.{Assembly, assembly, AllSized, IsReady}

assembly-send_ctrl_message : (self : AvtInput) → assembly (send_ctrl_message self) ≡ assembly self
unfolding send_ctrl_message
assembly-send_ctrl_message self = elim (Bool-cases (length self.output_uri == 0)) [
  | inl e ↦ rw e refl
  | inr e ↦ rw e refl
]

new-AllSized : (size max_index capacity : ℕ) → AllSized size (new max_index capacity)
unfolding new lookup
new-AllSized size max_index capacity j d e = let absent : none ≡ some d = e in cc

nothing-IsReady :
    (size jitter_buffer_size : ℕ) (frame : List ℕ)
    → 0 < size
    → length frame ≡ 5 * size
    → IsReady size
        (record {
          ordered = new 5000 jitter_buffer_size;
          frame_size = size;
          aligned = false;
          frame = frame;
          count = 0;
          filled = 0;
        })
        []
nothing-IsReady size jitter_buffer_size frame pos room = record {
  same_size = refl;
  queue_valid = new-IsValid 5000 jitter_buffer_size (omega arith);
  queue_sized = new-AllSized size 5000 jitter_buffer_size;
  size_pos = pos;
  room = room;
  counted = refl;
  few = omega arith;
  size_filled = omega arith;
  content = refl;
  in_place = tt;
  none_unaligned = inr refl;
}

-- After the constructor and a call of `setDabPlusParameters` that returns 0, the assembly is ready
-- for frames of 3 bytes for each kbit/s, and holds none.
pub avt_input-IsReady :
    (input_uri output_uri : List ℕ) (pad_port jitter_buffer_size : ℕ)
    (bitrate channels sample_rate : ℕ) (sbr ps : Bool)
    → (set_dab_plus_parameters
        (avt_input input_uri output_uri pad_port jitter_buffer_size)
        bitrate
        channels
        sample_rate
        sbr
        ps).0
      ≡ 0
    → IsReady
        (bitrate * 3)
        (assembly
          (set_dab_plus_parameters
            (avt_input input_uri output_uri pad_port jitter_buffer_size)
            bitrate
            channels
            sample_rate
            sbr
            ps).1)
        []
unfolding set_dab_plus_parameters avt_input
avt_input-IsReady input_uri output_uri pad_port jitter_buffer_size bitrate channels sample_rate sbr
      ps h =
    accepted (bad_bitrate bitrate) (not (sample_rate == 48000) && not (sample_rate == 32000))
      (not (channels == 1) && not (channels == 2)) _ _ _ _
      (λ (self : AvtInput). IsReady (bitrate * 3) (assembly self) []) refl refl refl
      (λ e.
        let (multiple, at_least, at_most) = in_range bitrate e in
        let bytes = length-replicate {A = ℕ} (bitrate / 8 * 8 * 5 * 3) 0 in
        subst (λ (a : Assembly). IsReady (bitrate * 3) a []) (sym (assembly-send_ctrl_message _))
          (nothing-IsReady (bitrate * 3) jitter_buffer_size (replicate (bitrate / 8 * 8 * 5 * 3) 0)
            (omega (arith, multiple, at_least)) (omega (arith, multiple, bytes))))
      h
