-- ===== src/AvtInput/Superframe/Loop.antt =====
-- The loop of `getNextFrame` keeps the invariant, ends, and writes inside the frame.
use odr_source_companion.Base.{
  ℕ, zero, suc, ◌*◌, ◌<◌, ltb, leb, ◌==◌, ◌&&◌, if◌then◌else◌, Bool, true, false, inl, inr, List,
  [], ◌∷◌, length, length-take, Option, none, some, le→ltb, lt→ltb, if_true, if_false, ◌≡◌, refl,
  ap, sym, ◌∙◌, subst, arith,
}
use native.Mathlib.Decide.{dec_lt}
use odr_source_companion.OrderedQueue
use odr_source_companion.OrderedQueue.{OrderedQueue, OrderedQueueData, Popped, Timestamp, no_data}
use odr_source_companion.OrderedQueue.Stock.{lookup}
use odr_source_companion.OrderedQueue.Pop.{pop_lem, TakesOut}
use odr_source_companion.AvtInput.{AvtInput}
use odr_source_companion.AvtInput.Datagram.{◌>>=◌}
use odr_source_companion.AvtInput.Pad.{check_messages}
use odr_source_companion.AvtInput.Superframe.{take_part, pass_part, assemble_parts, finish}
use odr_source_companion.AvtInput.Superframe.Ready.{
  Assembly, assembly, with_part, collect, Part, bytes_of, InPlace, AllSized, IsReady,
  assembly-check_messages,
}
use odr_source_companion.AvtInput.Superframe.Parts.{
  take_part-IsReady, emptied-IsReady, with_queue-IsReady,
}

else_some :
    (b : Bool) (o : Option OrderedQueueData) (d : OrderedQueueData)
    → (if b then none else o) ≡ some d
    → o ≡ some d
else_some true o d e = cc
else_some false o d e = e

popped-AllSized :
    (size : ℕ) (q : OrderedQueue) (steps : ℕ) (p : Popped)
    → TakesOut q steps p
    → AllSized size q
    → AllSized size p.queue
popped-AllSized size q steps p t sized j d e =
    sized j d (else_some (t.index == j) (lookup j q.stock) d (sym (t.rest j) ∙ e))

-- Messages in between change neither the assembly nor what is ready.
after_messages :
    {expected : ℕ} (self : AvtInput) (parts : List Part) (index : ℕ) (oqd : OrderedQueueData)
    (n : ℕ)
    → IsReady expected (assembly self) parts
    → self.nb_frames < 5
    → length oqd.buf ≡ self.dab24ms_frame_size
    → (self' : AvtInput) × (take_part (check_messages n self) index oqd ≡ some self')
      × (self'.ordered ≡ self.ordered)
      × IsReady expected (assembly self') (with_part parts (index, oqd))
after_messages {expected = expected} self parts index oqd n r few sized =
    let same = assembly-check_messages n self in
    let (self', run, queue, r') =
      take_part-IsReady (check_messages n self) parts index oqd
        (subst (λ (a : Assembly). IsReady expected a parts) (sym same) r)
        (subst (λ (a : Assembly). a.count < 5) (sym same) few)
        (sized ∙ ap (λ (a : Assembly). a.frame_size) (sym same)) in
    (self', run, queue ∙ ap (λ (a : Assembly). a.ordered) same, r')

-- The frames that `pop` gives one after the other, with their indexes, and the queue that they leave.
pub data Pops : OrderedQueue → List Part → OrderedQueue → Type 0 where
  pops_none : {q : OrderedQueue} → Pops q [] q
  pops_next :
      {q last : OrderedQueue} {ps : List Part} (p : Popped) (index : ℕ)
      → OrderedQueue.pop q ≡ some p
      → p.returned_index ≡ some index
      → Pops p.queue ps last
      → Pops q ((index, p.oqd) ∷ ps) last

-- When the loop stops: with five parts, or since `pop` gives nothing.
pub data Stops : List Part → OrderedQueue → Type 0 where
  stops_whole : {parts : List Part} {q : OrderedQueue} → length parts ≡ 5 → Stops parts q
  stops_waiting :
      {parts : List Part} {q : OrderedQueue} (p : Popped)
      → length parts < 5
      → OrderedQueue.pop q ≡ some p
      → p.returned_index ≡ none
      → Stops parts q

-- What the loop leaves: the parts that the frames it took out make of those before.
pub record Assembled (expected : ℕ) (self : AvtInput) (parts : List Part) (last : AvtInput)
    : Type 0 where
  pub popped : List Part
  pub pops : Pops self.ordered popped last.ordered
  pub stops : Stops (collect parts popped) last.ordered
  pub ready : IsReady expected (assembly last) (collect parts popped)

-- The loop takes a frame out of the queue in every round, and so ends.
pub assemble_parts-IsReady :
    {expected : ℕ} (fuel : ℕ) (self : AvtInput) (parts : List Part)
    → IsReady expected (assembly self) parts
    → length self.ordered.stock < fuel
    → (self' : AvtInput) × (assemble_parts fuel self ≡ some self')
      × Assembled expected self parts self'
unfolding assemble_parts
assemble_parts-IsReady zero self parts r h = absurd (omega arith)
assemble_parts-IsReady (suc fuel) self parts r h = elim (dec_lt self.nb_frames 5) [
  | no full ↦ (
    self,
    if_false (ltb self.nb_frames 5) _ _ (le→ltb self.nb_frames 5 (omega (arith, full))),
    record {
      popped = [];
      pops = pops_none;
      stops = stops_whole (omega (arith, full, r.few, r.counted));
      ready = r;
    },
  )
  | yes few ↦
      let round : Popped → Option AvtInput = λ p.
        pass_part (assemble_parts fuel) (record self { ordered = p.queue }) p.oqd.buf
          p.returned_index p.oqd in
      let (p, run, outcome) = pop_lem self.ordered r.queue_valid in
      let popped : assemble_parts (suc fuel) self ≡ round p =
        if_true (ltb self.nb_frames 5) (OrderedQueue.pop self.ordered >>= round) (some self)
          (lt→ltb self.nb_frames 5 few)
        ∙ ap (λ (o : Option Popped). o >>= round) run in
      elim outcome [
        | inl w ↦ (
          self,
          popped ∙ ap round w.nothing,
          record {
            popped = [];
            pops = pops_none;
            stops =
                stops_waiting p (omega (arith, few, r.counted)) run
                  (ap (λ (x : Popped). x.returned_index) w.nothing);
            ready = r;
          },
        )
        | inr d ↦
            let t = d.takes in
            let sized = r.queue_sized t.index p.oqd t.filed in
            let next = record self { ordered = p.queue } in
            let ready =
              with_queue-IsReady (assembly self) parts p.queue r t.still_valid
                (popped-AllSized self.dab24ms_frame_size self.ordered d.steps p t r.queue_sized) in
            let some_bytes : (length p.oqd.buf == 0) ≡ false = ground (arith, sized, r.size_pos) in
            let (self', taken, queue, r') =
              after_messages next parts t.index p.oqd (suc (length self.input_pad_socket)) ready few
                sized in
            let shorter : length self'.ordered.stock < fuel =
              omega (arith, t.shorter, ap (λ (q : OrderedQueue). length q.stock) queue) in
            let parts' = with_part parts (t.index, p.oqd) in
            let (last, rest, done) = assemble_parts-IsReady fuel self' parts' r' shorter in
            (
              last,
              popped
                  ∙ ap (λ (i : Option ℕ). pass_part (assemble_parts fuel) next p.oqd.buf i p.oqd)
                      t.returned
                  ∙ if_false (length p.oqd.buf == 0) (some next) _ some_bytes
                  ∙ ap (λ (o : Option AvtInput). o >>= assemble_parts fuel) taken
                  ∙ rest,
              record {
                popped = (t.index, p.oqd) ∷ done.popped;
                pops =
                    pops_next p t.index run t.returned (
                      subst (λ (q : OrderedQueue). Pops q done.popped last.ordered) queue
                        done.pops);
                stops = done.stops;
                ready = done.ready;
              },
            )
      ]
]

-- What the caller gets, for the parts that are there: nothing if these are fewer than five, or if his
-- buffer is too small; otherwise the bytes of five parts of the expected size whose indexes are 0 to 4
-- modulo 5, in this order.
pub data Given (size buf_size : ℕ) (parts : List Part) : Option (List ℕ × Timestamp) → Type 0 where
  nothing_yet : length parts < 5 → Given size buf_size parts none
  too_long : buf_size < 5 * size → Given size buf_size parts none
  superframe :
      (ts : Timestamp)
      → length parts ≡ 5
      → InPlace 0 parts
      → length (bytes_of parts) ≡ 5 * size
      → Given size buf_size parts (some (bytes_of parts, ts))

-- The parts that stay in the buffer.
abbrev pub kept_parts : Option (List ℕ × Timestamp) → List Part → List Part
kept_parts none parts = parts
kept_parts (some given) parts = []

pub finish-Given :
    {expected : ℕ} (buf_size : ℕ) (self : AvtInput) (parts : List Part)
    → IsReady expected (assembly self) parts
    → Given self.dab24ms_frame_size buf_size parts (finish buf_size self).0
      × IsReady expected
          (assembly (finish buf_size self).1)
          (kept_parts (finish buf_size self).0 parts)
      × ((finish buf_size self).1.ordered ≡ self.ordered)
unfolding finish
finish-Given buf_size self parts r = elim (dec_lt self.nb_frames 5) [
  | yes fewer ↦
      let less : (self.nb_frames == 5 && leb self.current_frame_size buf_size) ≡ false =
        ground (arith, fewer) in
      rw (less, finish) (nothing_yet (omega (arith, fewer, r.counted)), r, refl)
  | no enough ↦
      let five : self.nb_frames ≡ 5 = omega (arith, enough, r.few) in
      let total : self.current_frame_size ≡ 5 * self.dab24ms_frame_size =
        r.size_filled ∙ ap (λ (n : ℕ). n * self.dab24ms_frame_size) five in
      elim (dec_lt buf_size self.current_frame_size) [
        | yes short ↦
            let less : (self.nb_frames == 5 && leb self.current_frame_size buf_size) ≡ false =
              ground (arith, short) in
            rw (less, finish) (too_long (omega (arith, short, total)), r, refl)
        | no fits ↦
            let whole : (self.nb_frames == 5 && leb self.current_frame_size buf_size) ≡ true =
              ground (arith, five, fits) in
            let size : length (bytes_of parts) ≡ 5 * self.dab24ms_frame_size = omega (
              arith,
              ap length r.content,
              length-take {0} self.current_frame_size self.current_frame,
              r.room,
              total,
            ) in
            rw (whole, finish, r.content)
              (
                superframe self.frame_zero_timestamp (omega (arith, r.counted, five)) r.in_place
                    size,
                emptied-IsReady (assembly self) parts r,
                refl,
              )
      ]
]
