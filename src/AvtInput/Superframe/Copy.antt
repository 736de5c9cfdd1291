-- ===== src/AvtInput/Superframe/Copy.antt =====
-- The copy of one part into the frame.
use odr_source_companion.Base.{
  ℕ, suc, ◌+◌, ◌*◌, ◌%◌, ◌≤◌, ◌<◌, true, inl, List, [], ◌∷◌, ◌++◌, length, length-append,
  length-take, length-drop, take, drop, take-append, append_assoc, append-nil, some, le→ltb, ◌≡◌,
  refl, ap, sym, ◌∙◌, arith,
}
use native.Mathlib.Nat.{mul-le-mul_right}
use odr_source_companion.OrderedQueue.{OrderedQueueData}
use odr_source_companion.AvtInput.{AvtInput}
use odr_source_companion.AvtInput.Superframe.{add_part, grown}
use odr_source_companion.AvtInput.Superframe.Ready.{assembly, Part, bytes_of, InPlace, IsReady}

-- One more part behind the others.
bytes_of-snoc :
    (parts : List Part) (p : Part) → bytes_of (parts ++ p ∷ []) ≡ bytes_of parts ++ p.1.buf
bytes_of-snoc [] p = append-nil p.1.buf
bytes_of-snoc (q ∷ qs) p =
    ap (λ (l : List ℕ). q.1.buf ++ l) (bytes_of-snoc qs p)
    ∙ sym (append_assoc q.1.buf (bytes_of qs) p.1.buf)

InPlace-snoc :
    (n : ℕ) (parts : List Part) (p : Part)
    → InPlace n parts
    → p.0 % 5 ≡ n + length parts
    → InPlace n (parts ++ p ∷ [])
InPlace-snoc n [] p h e = (omega (arith, e), tt)
InPlace-snoc n (q ∷ qs) p h e = (h.0, InPlace-snoc (suc n) qs p h.1 (omega (arith, e)))

-- A write of `part` at `filled`.
written : (frame part : List ℕ) (filled : ℕ) → List ℕ
written frame part filled = take filled frame ++ (part ++ drop (filled + length part) frame)

length-written :
    (frame part : List ℕ) (filled : ℕ)
    → filled + length part ≤ length frame
    → length (written frame part filled) ≡ length frame
unfolding written
length-written frame part filled h = omega (
  arith,
  length-append {0} (take filled frame) (part ++ drop (filled + length part) frame),
  length-append {0} part (drop (filled + length part) frame),
  length-take {0} filled frame,
  length-drop {0} (filled + length part) frame,
)

take-written :
    (frame part : List ℕ) (filled : ℕ)
    → filled + length part ≤ length frame
    → take (filled + length part) (written frame part filled) ≡ take filled frame ++ part
unfolding written
take-written frame part filled h =
    let rest = drop (filled + length part) frame in
    let size : filled + length part ≡ length (take filled frame ++ part) =
      omega (arith, length-append {0} (take filled frame) part, length-take {0} filled frame) in
    ap (take (filled + length part)) (sym (append_assoc (take filled frame) part rest))
    ∙ take-append (take filled frame ++ part) rest (filled + length part) size

-- The copy of a part that is in its place fits.
pub add_part-IsReady :
    {expected : ℕ} (self : AvtInput) (parts : List Part) (index : ℕ) (oqd : OrderedQueueData)
    → IsReady expected (assembly self) parts
    → self.frame_aligned ≡ true
    → self.nb_frames < 5
    → length oqd.buf ≡ self.dab24ms_frame_size
    → index % 5 ≡ self.nb_frames
    → (self' : AvtInput) × (add_part self index oqd.buf ≡ some self')
      × (self'.ordered ≡ self.ordered)
      × IsReady expected (assembly self') (parts ++ (index, oqd) ∷ [])
unfolding written
add_part-IsReady self parts index oqd r aligned few sized place =
    let total : self.current_frame_size + length oqd.buf
        ≡ suc self.nb_frames * self.dab24ms_frame_size =
      omega (arith, r.size_filled, sized) in
    let below =
      mul-le-mul_right self.dab24ms_frame_size (let h : suc self.nb_frames ≤ 5 = few in h) in
    let fits : self.current_frame_size + length oqd.buf ≤ length self.current_frame =
      omega (arith, total, below, r.room) in
    let inside =
      le→ltb (length self.current_frame) (self.current_frame_size + length oqd.buf) fits in
    (
      grown self index oqd.buf,
      rw (inside) refl,
      refl,
      record {
        same_size = r.same_size;
        queue_valid = r.queue_valid;
        queue_sized = r.queue_sized;
        size_pos = r.size_pos;
        room = length-written self.current_frame oqd.buf self.current_frame_size fits ∙ r.room;
        counted = omega (arith, length-append parts ((index, oqd) ∷ []), r.counted);
        few = omega (arith, few);
        size_filled = omega (arith, total);
        content =
            take-written self.current_frame oqd.buf self.current_frame_size fits
            ∙ ap (λ (l : List ℕ). l ++ oqd.buf) r.content
            ∙ sym (bytes_of-snoc parts (index, oqd));
        in_place = InPlace-snoc 0 parts (index, oqd) r.in_place (omega (arith, place, r.counted));
        none_unaligned = inl aligned;
      },
    )
