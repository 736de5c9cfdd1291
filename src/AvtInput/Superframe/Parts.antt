-- ===== src/AvtInput/Superframe/Parts.antt =====
-- What the body of the loop makes of the parts.
use odr_source_companion.Base.{
  ℕ, ◌+◌, ◌%◌, ◌<◌, ◌==◌, not, true, false, Bool-cases, inl, inr, List, [], ◌∷◌, ◌++◌, length, some,
  ==_iff, if_true, if_false, ◌≡◌, refl, ap, sym, ◌∙◌, subst, arith,
}
use native.Mathlib.Decide.{ℕ_discrete}
use odr_source_companion.OrderedQueue.{OrderedQueue, OrderedQueueData}
use odr_source_companion.OrderedQueue.Invariant.{IsValid}
use odr_source_companion.AvtInput.{AvtInput}
use odr_source_companion.AvtInput.Superframe.{take_unaligned, take_aligned, take_part}
use odr_source_companion.AvtInput.Superframe.Ready.{
  Assembly, assembly, with_part, Part, AllSized, IsReady,
}
use odr_source_companion.AvtInput.Superframe.Copy.{add_part-IsReady}

-- An object that starts over.
restarted-IsReady :
    {expected : ℕ} (a : Assembly) (parts : List Part)
    → IsReady expected a parts
    → IsReady expected (record a { aligned = false; count = 0; filled = 0 }) []
restarted-IsReady a parts r = record {
  same_size = r.same_size;
  queue_valid = r.queue_valid;
  queue_sized = r.queue_sized;
  size_pos = r.size_pos;
  room = r.room;
  counted = refl;
  few = omega arith;
  size_filled = omega arith;
  content = refl;
  in_place = tt;
  none_unaligned = inr refl;
}

-- An object whose parts were given away stays aligned.
pub emptied-IsReady :
    {expected : ℕ} (a : Assembly) (parts : List Part)
    → IsReady expected a parts
    → IsReady expected (record a { count = 0; filled = 0 }) []
emptied-IsReady a parts r = record {
  same_size = r.same_size;
  queue_valid = r.queue_valid;
  queue_sized = r.queue_sized;
  size_pos = r.size_pos;
  room = r.room;
  counted = refl;
  few = omega arith;
  size_filled = omega arith;
  content = refl;
  in_place = tt;
  none_unaligned = inr refl;
}

aligned-IsReady :
    {expected : ℕ} (a : Assembly) (parts : List Part)
    → IsReady expected a parts
    → IsReady expected (record a { aligned = true }) parts
aligned-IsReady a parts r = record {
  same_size = r.same_size;
  queue_valid = r.queue_valid;
  queue_sized = r.queue_sized;
  size_pos = r.size_pos;
  room = r.room;
  counted = r.counted;
  few = r.few;
  size_filled = r.size_filled;
  content = r.content;
  in_place = r.in_place;
  none_unaligned = inl refl;
}

abbrev restarted : AvtInput → AvtInput
restarted self = record self {
  nb_frames = 0;
  current_frame_size = 0;
  frame_aligned = false;
  expected_frame_index = 0;
}

pub with_queue-IsReady :
    {expected : ℕ} (a : Assembly) (parts : List Part) (q : OrderedQueue)
    → IsReady expected a parts
    → IsValid q
    → AllSized a.frame_size q
    → IsReady expected (record a { ordered = q }) parts
with_queue-IsReady a parts q r valid sized = record {
  same_size = r.same_size;
  queue_valid = valid;
  queue_sized = sized;
  size_pos = r.size_pos;
  room = r.room;
  counted = r.counted;
  few = r.few;
  size_filled = r.size_filled;
  content = r.content;
  in_place = r.in_place;
  none_unaligned = r.none_unaligned;
}

taken_parts :
    (parts : List Part) (p : Part) → p.0 % 5 ≡ length parts → with_part parts p ≡ parts ++ p ∷ []
taken_parts parts p e = if_true (p.0 % 5 == length parts) _ _ ((==_iff _ _).1 e)

dropped_parts :
    (parts : List Part) (p : Part) → (p.0 % 5 == length parts) ≡ false → with_part parts p ≡ []
dropped_parts parts p e = if_false (p.0 % 5 == length parts) _ _ e

no_parts : (parts : List Part) → length parts ≡ 0 → parts ≡ []
no_parts [] h = refl
no_parts (p ∷ ps) h = absurd (omega (arith, h))

-- Whatever the index of a frame of the right size, the body of the loop keeps the invariant.
pub take_part-IsReady :
    {expected : ℕ} (self : AvtInput) (parts : List Part) (index : ℕ) (oqd : OrderedQueueData)
    → IsReady expected (assembly self) parts
    → self.nb_frames < 5
    → length oqd.buf ≡ self.dab24ms_frame_size
    → (self' : AvtInput) × (take_part self index oqd ≡ some self')
      × (self'.ordered ≡ self.ordered)
      × IsReady expected (assembly self') (with_part parts (index, oqd))
unfolding take_part
take_part-IsReady {expected = expected} self parts index oqd r few sized =
    elim (Bool-cases self.frame_aligned) [
      | inl aligned ↦
          let known =
            if_false (not self.frame_aligned) (take_unaligned self index oqd)
              (take_aligned self index oqd) (ap not aligned) in
          elim (ℕ_discrete (index % 5) self.nb_frames) [
            | yes place ↦
                let next = record self { frame_zero_timestamp = self.frame_zero_timestamp + 24 } in
                let (self', run, same, r') =
                  add_part-IsReady next parts index oqd r aligned few sized place in
                (
                  self',
                  known ∙ if_true (index % 5 == self.nb_frames) _ _ ((==_iff _ _).1 place) ∙ run,
                  same,
                  subst (IsReady expected (assembly self'))
                      (sym (taken_parts parts (index, oqd) (place ∙ sym r.counted))) r',
                )
            | no other ↦
                let differs : (index % 5 == self.nb_frames) ≡ false = ground arith in
                let not_next : (index % 5 == length parts) ≡ false =
                  ground (arith, other, r.counted) in
                (
                  restarted self,
                  known ∙ if_false (index % 5 == self.nb_frames) _ _ differs,
                  refl,
                  subst (IsReady expected (assembly (restarted self)))
                      (sym (dropped_parts parts (index, oqd) not_next))
                      (restarted-IsReady (assembly self) parts r),
                )
          ]
      | inr unaligned ↦
          let known =
            if_true (not self.frame_aligned) (take_unaligned self index oqd)
              (take_aligned self index oqd) (ap not unaligned) in
          let none_yet : self.nb_frames ≡ 0 = ground (arith, r.none_unaligned) in
          elim (ℕ_discrete (index % 5) 0) [
            | yes place ↦
                let next = record self {
                  frame_aligned = true;
                  frame_zero_timestamp = oqd.capture_timestamp;
                } in
                let (self', run, same, r') =
                  add_part-IsReady next parts index oqd (aligned-IsReady (assembly self) parts r)
                    refl few sized (omega (arith, place, none_yet)) in
                (
                  self',
                  known ∙ if_true (index % 5 == 0) _ _ ((==_iff _ _).1 place) ∙ run,
                  same,
                  subst (IsReady expected (assembly self'))
                      (sym (
                        taken_parts parts (index, oqd) (omega (arith, place, none_yet, r.counted))))
                      r',
                )
            | no other ↦
                let differs : (index % 5 == 0) ≡ false = ground arith in
                let not_next : (index % 5 == length parts) ≡ false =
                  ground (arith, other, none_yet, r.counted) in
                let empty : parts ≡ [] = no_parts parts (omega (arith, none_yet, r.counted)) in
                (
                  self,
                  known ∙ if_false (index % 5 == 0) _ _ differs,
                  refl,
                  subst (IsReady expected (assembly self))
                      (empty ∙ sym (dropped_parts parts (index, oqd) not_next)) r,
                )
          ]
    ]
