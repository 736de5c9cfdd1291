-- ===== src/Edi/Transport/Rounds.antt =====
-- The thread that sends: however its rounds fall, the fragments go out once and in order.
use odr_source_companion.Base.{
  ℕ, suc, ◌+◌, ◌*◌, ◌<◌, ◌≤◌, true, List, [], ◌∷◌, ◌++◌, length, append_assoc, if_true, ◌≡◌, refl,
  ap, sym, ◌∙◌, subst, arith,
}
use odr_source_companion.Edi.Result.{Result, ok, ◌>>=◌}
use odr_source_companion.Edi.Pft
use odr_source_companion.Edi.Pft.{Pft}
use odr_source_companion.Edi.Transport.{
  Destination, Pending, Sender, Sent, send_to_all, send_fragments, inter_fragment_wait_time,
  schedule, due, run_round, queue_fragments, write_packet,
}
use odr_source_companion.Edi.Transport.Pending.{
  AllBelow, AllBelow-weaken, AllBelow-append, Ascending, fragments_of, fragments_of-append,
  fragments_of-timed, timed, timed-AllBelow, schedule-append, schedule-Ascending, due-Due, due-all,
}

-- Rounds at these times.
unfoldable pub run_rounds : Sender → List ℕ → Sender
run_rounds self [] = self
run_rounds self (now ∷ later) = run_rounds (run_round self now) later

send_fragments-append :
    (ds : List Destination) (fs gs : List (List ℕ))
    → send_fragments ds (fs ++ gs) ≡ send_fragments ds fs ++ send_fragments ds gs
send_fragments-append ds [] gs = refl
send_fragments-append ds (f ∷ fs) gs =
    ap (λ (l : List Sent). send_to_all ds f ++ l) (send_fragments-append ds fs gs)
    ∙ sym (append_assoc (send_to_all ds f) (send_fragments ds fs) (send_fragments ds gs))

-- Sent already, or waiting.
abbrev accounted : Sender → List Sent
accounted self =
    self.sent ++ send_fragments self.m_conf.destinations (fragments_of self.m_pending_frames)

record Round (self : Sender) (n : ℕ) (after : Sender) : Type 0 where
  running : after.m_running ≡ true
  same_conf : after.m_conf ≡ self.m_conf
  ascending : Ascending after.m_pending_frames
  below : AllBelow n after.m_pending_frames
  same : accounted after ≡ accounted self

run_round-Round :
    (self : Sender) (n now : ℕ)
    → self.m_running ≡ true
    → Ascending self.m_pending_frames
    → AllBelow n self.m_pending_frames
    → Round self n (run_round self now)
unfolding run_round
run_round-Round self n now running a b =
    let d = due-Due now self.m_pending_frames a in
    let ds = self.m_conf.destinations in
    let r = due now self.m_pending_frames in
    subst (Round self n) (sym (if_true self.m_running _ self running)) (record {
      running = running;
      same_conf = refl;
      ascending = d.still_ascending;
      below = d.still_below n b;
      same =
          append_assoc self.sent (send_fragments ds r.0) (send_fragments ds (fragments_of r.1))
          ∙ ap (λ (l : List Sent). self.sent ++ l)
              (sym (send_fragments-append ds r.0 (fragments_of r.1))
                ∙ ap (send_fragments ds) d.in_order);
    })

-- All that waits is sent by a round that comes after all of it.
run_rounds-all :
    (self : Sender) (times : List ℕ) (last : ℕ)
    → self.m_running ≡ true
    → Ascending self.m_pending_frames
    → AllBelow (suc last) self.m_pending_frames
    → ((run_rounds self (times ++ last ∷ [])).sent ≡ accounted self)
      × ((run_rounds self (times ++ last ∷ [])).m_pending_frames ≡ [])
unfolding run_rounds run_round
run_rounds-all self [] last running a b =
    let all = due-all last self.m_pending_frames b in
    let sends =
      λ (r : List (List ℕ) × Pending). self.sent ++ send_fragments self.m_conf.destinations r.0 in
    let known = if_true self.m_running _ self running in
    (
      ap (λ (s : Sender). s.sent) known ∙ ap sends all,
      ap (λ (s : Sender). s.m_pending_frames) known ∙ ap (λ (r : List (List ℕ) × Pending). r.1) all,
    )
run_rounds-all self (now ∷ times) last running a b =
    let r = run_round-Round self (suc last) now running a b in
    let later = run_rounds-all (run_round self now) times last r.running r.ascending r.below in
    (later.0 ∙ r.same, later.1)

-- With PFT and a running thread: if what waits is in the order of its times and due before `now`, and
-- the packet gives fragments between which the wait is not 0, then `write` schedules them, and rounds
-- at any times, the last not before `now` and a wait for each fragment, send to each destination
-- what waited and then the fragments, each once and in their order, and leave nothing.
pub write_packet-Delivered :
    (rs_encode : List ℕ → List ℕ) (self : Sender) (now : ℕ) (af_packet : List ℕ)
    (fragments : List (List ℕ)) (edi_pft : Pft) (times : List ℕ) (last : ℕ)
    → self.m_conf.enable_pft ≡ true
    → self.m_running ≡ true
    → Ascending self.m_pending_frames
    → AllBelow now self.m_pending_frames
    → Pft.assemble rs_encode self.edi_pft af_packet ≡ ok (fragments, edi_pft)
    → 0 < inter_fragment_wait_time self.m_conf (length fragments)
    → now + length fragments * (inter_fragment_wait_time self.m_conf (length fragments) * 1000)
      ≤ last
    → (self' : Sender) × (write_packet rs_encode self now af_packet ≡ ok self')
      × ((run_rounds self' (times ++ last ∷ [])).sent
          ≡ self.sent
            ++ send_fragments self.m_conf.destinations
                (fragments_of self.m_pending_frames ++ fragments))
      × ((run_rounds self' (times ++ last ∷ [])).m_pending_frames ≡ [])
unfolding write_packet queue_fragments
write_packet-Delivered rs_encode self now af_packet fragments edi_pft times last pft running a b e
      pos after =
    let wait = inter_fragment_wait_time self.m_conf (length fragments) * 1000 in
    let ps = self.m_pending_frames in
    let ds = self.m_conf.destinations in
    let self' = queue_fragments (record self { edi_pft = edi_pft }) now fragments in
    let queued : schedule wait now fragments ps ≡ ps ++ timed wait now fragments =
      schedule-append wait now fragments ps (omega (arith, pos)) b in
    let below : AllBelow (now + length fragments * wait) (ps ++ timed wait now fragments) =
      AllBelow-append (now + length fragments * wait) ps (timed wait now fragments)
        (AllBelow-weaken now (now + length fragments * wait) ps (omega arith) b)
        (timed-AllBelow wait now fragments (omega (arith, pos))) in
    let ready : AllBelow (suc last) (ps ++ timed wait now fragments) =
      AllBelow-weaken (now + length fragments * wait) (suc last) (ps ++ timed wait now fragments)
        (omega (arith, after)) below in
    let (all, nothing) =
      run_rounds-all self' times last running (schedule-Ascending wait now fragments ps a)
        (subst (AllBelow (suc last)) (sym queued) ready) in
    (
      self',
      if_true self.m_conf.enable_pft _ _ pft
          ∙ ap
              (λ (r : Result (List (List ℕ) × Pft)). r >>= λ assembled.
                ok (queue_fragments (record self { edi_pft = assembled.1 }) now assembled.0))
              e,
      all
          ∙ ap (λ (qs : Pending). self.sent ++ send_fragments ds (fragments_of qs)) queued
          ∙ ap (λ (fs : List (List ℕ)). self.sent ++ send_fragments ds fs)
              (fragments_of-append ps (timed wait now fragments)
                ∙ ap (λ (fs : List (List ℕ)). fragments_of ps ++ fs)
                    (fragments_of-timed wait now fragments)),
      nothing,
    )
