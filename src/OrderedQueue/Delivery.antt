-- ===== src/OrderedQueue/Delivery.antt =====
-- The purpose of OrderedQueue: frames that arrive in any order leave in the order of their indexes.
use odr_source_companion.Base.{
  ℕ, zero, suc, ◌+◌, ◌-◌, ◌%◌, ◌≤◌, ◌<◌, ◌==◌, if◌then◌else◌, List, [], ◌∷◌, length, Option, none,
  some, inl, inr, ◌⊎◌, lt→ltb, ◌≡◌, ◌≢◌, refl, ap, sym, ◌∙◌, arith, tabulate,
}
use native.Mathlib.Nat.{mod-add-mod, mod-eq_of_lt, mod-lt, mod-eq-sub-mod, add-zero, zero-add}
use native.Mathlib.Decide.{dec_lt, ℕ_discrete}
use odr_source_companion.OrderedQueue.Stock.{lookup, DistinctKeys, KeysBelow}
use odr_source_companion.OrderedQueue.{
  OrderedQueue, OrderedQueueData, next_index, pop, Popped, push, wrap,
}
use odr_source_companion.OrderedQueue.Invariant.{IsValid, push-Kept, push-IsValid, lookup-push}
use odr_source_companion.OrderedQueue.Pop.{pop-next, TakesOut-first}

abbrev Arrivals : Type 0
Arrivals = List (ℕ × OrderedQueueData)

-- The frames pushed in the order of the list.
abbrev pub push_all : OrderedQueue → List (ℕ × OrderedQueueData) → OrderedQueue
push_all q [] = q
push_all q ((i, d) ∷ rest) = push_all (push q i d.buf d.capture_timestamp) rest

-- `n` calls of `pop`; what they return, and the queue after them.
pub drain : ℕ → OrderedQueue → Option (List OrderedQueueData × OrderedQueue)
drain zero q = some ([], q)
drain (suc n) q = elim (pop q) [
  | none ↦ none
  | some p ↦ elim (drain n p.queue) [ none ↦ none | some r ↦ some (p.oqd ∷ r.0, r.1) ]
]

-- Fewer than `n` steps round the indexes do not come back to the start.
mod-add-ne : (n base k : ℕ) → 0 < k → k < n → (base + k) % n ≢ base % n
mod-add-ne n base k pos h e = go (dec_lt (base % n + k) n)
  where
    whole : (base % n + k) % n ≡ base % n
    whole = mod-add-mod base n k ∙ e

    below : base % n < n
    below = mod-lt base (omega arith)

    go : Dec (base % n + k < n) → ⊥
    go (yes p) = omega (arith, mod-eq_of_lt p, whole)
    go (no p) = omega (
      arith,
      whole,
      below,
      mod-eq-sub-mod {n = base % n + k} {m = n} (omega arith),
      mod-eq_of_lt {n = base % n + k - n} {m = n} (omega (arith, below)),
    )

next_index-after :
    (q : OrderedQueue) (l size : ℕ)
    → q.last_index_pop ≡ some l
    → q.max_index ≡ size
    → next_index q ≡ (l + 1) % size
next_index-after q l size last e = rw (last, e) refl

-- What is left after the frame at `base` was taken out.
filed_after :
    (n i base size : ℕ) (f : ℕ → OrderedQueueData) (index : ℕ) (old new : Arrivals)
    → suc n ≤ size
    → index ≡ base % size
    → ((j : ℕ) → lookup j new ≡ (if index == j then none else lookup j old))
    → ((j : ℕ) → j < suc n → lookup ((base + j) % size) old ≡ some (f (i + j)))
    → (j : ℕ) → j < n
    → lookup ((base + 1 + j) % size) new ≡ some (f (suc i + j))
filed_after n i base size f index old new fits at rest filed j h =
    let place : base + 1 + j ≡ base + suc j = omega arith in
    let ne : index ≢ (base + suc j) % size =
      λ e. mod-add-ne size base (suc j) (omega arith) (omega arith) (sym e ∙ at) in
    let label : i + suc j ≡ suc i + j = omega arith in
    rw place
      (rest ((base + suc j) % size) ∙ ground (arith, ne, filed (suc j) (omega arith), ap f label))

drain-suc :
    (n : ℕ) (q : OrderedQueue) (p : Popped) (l : List OrderedQueueData) (r : OrderedQueue)
    → pop q ≡ some p
    → drain n p.queue ≡ some (l, r)
    → drain (suc n) q ≡ some (p.oqd ∷ l, r)
unfolding drain
drain-suc n q p l r run later = ground arith

-- Frames filed at the next `n` indexes are popped one after the other.
drain_from :
    (n i base size : ℕ) (q : OrderedQueue) (f : ℕ → OrderedQueueData)
    → IsValid q
    → q.max_index ≡ size
    → n ≤ size
    → next_index q ≡ base % size
    → ((j : ℕ) → j < n → lookup ((base + j) % size) q.stock ≡ some (f (i + j)))
    → (r : OrderedQueue) × (drain n q ≡ some (tabulate f n i, r))
drain_from zero i base size q f v e fits at filed = (q, unfold drain in refl)
drain_from (suc n) i base size q f v e fits at filed =
    let first : lookup (next_index q) q.stock ≡ some (f i) =
      rw (at, ← add-zero base, filed 0 (omega arith), add-zero i) refl in
    let (p, run, t) = pop-next q (f i) v first in
    let (place, oqd) = TakesOut-first q p (f i) v t first in
    let index : t.index ≡ base % size = place ∙ at in
    let following : next_index p.queue ≡ (base + 1) % size =
      next_index-after p.queue t.index size t.remembered (t.same_size ∙ e)
      ∙ rw index (mod-add-mod base size 1) in
    let (r, later) =
      drain_from n (suc i) (base + 1) size p.queue f t.still_valid (t.same_size ∙ e) (omega arith)
        following
        (filed_after n i base size f t.index q.stock p.queue.stock fits index t.rest filed) in
    (
      r,
      drain-suc n q p (tabulate f n (suc i)) r run later
          ∙ ap (λ (d : OrderedQueueData). some (d ∷ tabulate f n (suc i), r)) oqd,
    )

-- With room, `push` files a frame of an index in range under that index.
lookup-push_room :
    (q : OrderedQueue) (i : ℕ) (d : OrderedQueueData) (k : ℕ)
    → length q.stock < q.capacity
    → i < q.max_index
    → lookup k (push q i d.buf d.capture_timestamp).stock
      ≡ (if i == k then some d else lookup k q.stock)
lookup-push_room q i d k room below =
    let same : wrap q i ≡ i = grind arith in
    (lookup-push q i d.buf d.capture_timestamp k).0
    ∙ rw (lt→ltb (length q.stock) q.capacity room, same) refl

lookup-nil_ne : (k : ℕ) (d : OrderedQueueData) → lookup k [] ≢ some d
unfolding lookup
lookup-nil_ne k d e = cc

-- Where a frame is found once the first arrival is filed: among the others, or in the stock.
filed_or_coming :
    (k i : ℕ) (oqd d : OrderedQueueData) (frames old new : Arrivals)
    → lookup i frames ≡ none
    → lookup k new ≡ (if i == k then some oqd else lookup k old)
    → (lookup k ((i, oqd) ∷ frames) ≡ some d)
      ⊎ ((lookup k ((i, oqd) ∷ frames) ≡ none) × (lookup k old ≡ some d))
    → (lookup k frames ≡ some d) ⊎ ((lookup k frames ≡ none) × (lookup k new ≡ some d))
unfolding lookup
filed_or_coming k i oqd d frames old new apart now h = elim (ℕ_discrete i k) [
  | yes e ↦ inr (ground arith)
  | no ne ↦ elim h [ inl x ↦ inl (ground arith) | inr x ↦ inr (ground arith) ]
]

-- A frame of the list is filed after the pushes, if the frames fit and their indexes differ.
lookup-push_all :
    (frames : Arrivals) (q : OrderedQueue) (k : ℕ) (d : OrderedQueueData)
    → IsValid q
    → length q.stock + length frames ≤ q.capacity
    → KeysBelow q.max_index frames
    → DistinctKeys frames
    → (lookup k frames ≡ some d) ⊎ ((lookup k frames ≡ none) × (lookup k q.stock ≡ some d))
    → lookup k (push_all q frames).stock ≡ some d
lookup-push_all [] q k d v fits below distinct h = elim h [
  | inl x ↦ absurd (lookup-nil_ne k d x)
  | inr x ↦ x.1
]
lookup-push_all ((i, oqd) ∷ frames) q k d v fits below distinct h =
    let q' = push q i oqd.buf oqd.capture_timestamp in
    let kept = push-Kept q i oqd.buf oqd.capture_timestamp in
    lookup-push_all frames q' k d (push-IsValid q i oqd.buf oqd.capture_timestamp v)
      (omega (arith, kept.grows, kept.same_capacity)) (rw kept.same_size below.1) distinct.1
      (filed_or_coming k i oqd d frames q.stock q'.stock distinct.0
        (lookup-push_room q i oqd k (omega arith) below.0) h)

push_all-IsValid :
    (frames : Arrivals) (q : OrderedQueue) (l : ℕ)
    → IsValid q
    → q.last_index_pop ≡ some l
    → IsValid (push_all q frames)
      × ((push_all q frames).max_index ≡ q.max_index)
      × ((push_all q frames).last_index_pop ≡ some l)
push_all-IsValid [] q l v e = (v, refl, e)
push_all-IsValid ((i, d) ∷ frames) q l v e =
    let kept = push-Kept q i d.buf d.capture_timestamp in
    let rest =
      push_all-IsValid frames (push q i d.buf d.capture_timestamp) l
        (push-IsValid q i d.buf d.capture_timestamp v) (kept.same_last l e) in
    (rest.0, rest.1 ∙ kept.same_size, rest.2)

-- Take a valid queue, empty after the frame `l` was popped, and frames that fit its capacity, of
-- different indexes below `max_index`. If the frame at `n` indexes in a row after `l` is `f 0`,
-- `f 1`, …, then whatever order they are pushed in, `n` calls of `pop` return `f 0`, `f 1`, … .
pub drain-push_all :
    (q : OrderedQueue) (l n : ℕ) (frames : List (ℕ × OrderedQueueData)) (f : ℕ → OrderedQueueData)
    → IsValid q
    → length q.stock ≡ 0
    → q.last_index_pop ≡ some l
    → length frames ≤ q.capacity
    → n ≤ q.max_index
    → KeysBelow q.max_index frames
    → DistinctKeys frames
    → ((j : ℕ) → j < n → lookup ((l + 1 + j) % q.max_index) frames ≡ some (f j))
    → (r : OrderedQueue) × (drain n (push_all q frames) ≡ some (tabulate f n 0, r))
drain-push_all q l n frames f v empty last fits cycle below distinct arrived =
    let (valid, size, same_last) = push_all-IsValid frames q l v last in
    drain_from n 0 (l + 1) q.max_index (push_all q frames) f valid size cycle
      (next_index-after (push_all q frames) l q.max_index same_last size)
      (λ j h. rw (zero-add j) (
        lookup-push_all frames q ((l + 1 + j) % q.max_index) (f j) v (omega arith) below distinct
          (inl (arrived j h))))
