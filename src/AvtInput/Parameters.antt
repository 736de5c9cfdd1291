-- ===== src/AvtInput/Parameters.antt =====
-- What AVTInput::setDabPlusParameters leaves when it succeeds.
use odr_source_companion.Base.{
  ℕ, ◌*◌, ◌/◌, ◌≤◌, ◌==◌, if◌then◌else◌, not, ◌&&◌, Bool, true, false, Bool-cases, inl, inr, length,
  length-replicate, ◌≡◌, refl, arith,
}
use odr_source_companion.OrderedQueue.{new}
use odr_source_companion.OrderedQueue.Invariant.{IsValid, new-IsValid}
use odr_source_companion.AvtInput.{
  AvtInput, bad_bitrate, send_ctrl_message, set_dab_plus_parameters,
}

-- A subchannel of 1 to 24 times 8 kbit/s, room for five frames of 24 ms, and an empty queue.
pub record Configured (bitrate : ℕ) (self : AvtInput) : Type 0 where
  pub multiple : self.sub_channel_index * 8 ≡ bitrate
  pub at_least : 1 ≤ self.sub_channel_index
  pub at_most : self.sub_channel_index ≤ 24
  pub superframe : length self.current_frame ≡ 5 * self.dab24ms_frame_size
  pub frame_size : self.dab24ms_frame_size ≡ 24 * self.sub_channel_index
  pub queue_valid : IsValid self.ordered
  pub queue_empty : length self.ordered.stock ≡ 0

send_ctrl_message-Configured :
    (bitrate : ℕ) (self : AvtInput)
    → Configured bitrate self
    → Configured bitrate (send_ctrl_message self)
unfolding send_ctrl_message
send_ctrl_message-Configured bitrate self c = elim (Bool-cases (length self.output_uri == 0)) [
  | inl e ↦ rw e c
  | inr e ↦ rw e (record {
    multiple = c.multiple;
    at_least = c.at_least;
    at_most = c.at_most;
    superframe = c.superframe;
    frame_size = c.frame_size;
    queue_valid = c.queue_valid;
    queue_empty = c.queue_empty;
  })
]

pub in_range :
    (bitrate : ℕ)
    → bad_bitrate bitrate ≡ false
    → (bitrate / 8 * 8 ≡ bitrate) × (1 ≤ bitrate / 8) × (bitrate / 8 ≤ 24)
in_range bitrate h = ground arith

-- Of three refusals none was taken when 0 is returned.
pub accepted :
    (b c d : Bool) (refused refused' refused'' done : ℕ × AvtInput) (P : AvtInput → Type 0)
    → refused.0 ≡ 1
    → refused'.0 ≡ 1
    → refused''.0 ≡ 1
    → (b ≡ false → P done.1)
    → (if b then refused else if c then refused' else if d then refused'' else done).0 ≡ 0
    → P (if b then refused else if c then refused' else if d then refused'' else done).1
accepted true c d r s t u P x y z f h = absurd (omega (arith, x, h))
accepted false true d r s t u P x y z f h = absurd (omega (arith, y, h))
accepted false false true r s t u P x y z f h = absurd (omega (arith, z, h))
accepted false false false r s t u P x y z f h = f refl

-- If the call returns 0, the encoder is configured for the bitrate, with an empty valid queue and a
-- buffer of five frames.
pub set_dab_plus_parameters-Configured :
    (self : AvtInput) (bitrate channels sample_rate : ℕ) (sbr ps : Bool)
    → (set_dab_plus_parameters self bitrate channels sample_rate sbr ps).0 ≡ 0
    → Configured bitrate (set_dab_plus_parameters self bitrate channels sample_rate sbr ps).1
unfolding set_dab_plus_parameters new
set_dab_plus_parameters-Configured self bitrate channels sample_rate sbr ps h =
    accepted (bad_bitrate bitrate) (not (sample_rate == 48000) && not (sample_rate == 32000))
      (not (channels == 1) && not (channels == 2)) _ _ _ _ (Configured bitrate) refl refl refl
      (λ e.
        let (multiple, at_least, at_most) = in_range bitrate e in
        let bytes = length-replicate {A = ℕ} (bitrate / 8 * 8 * 5 * 3) 0 in
        send_ctrl_message-Configured bitrate _ (record {
          multiple = multiple;
          at_least = at_least;
          at_most = at_most;
          superframe = omega (arith, multiple, bytes);
          frame_size = omega (arith, multiple);
          queue_valid = new-IsValid 5000 self.jitter_buffer_size (omega arith);
          queue_empty = refl;
        }))
      h
