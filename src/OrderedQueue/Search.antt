-- ===== src/OrderedQueue/Search.antt =====
-- The loop of `OrderedQueue::pop`: it ends, and it stops at the first filed index in cyclic order.
use odr_source_companion.Base.{
  ℕ, zero, suc, ◌+◌, ◌%◌, ◌≤◌, ◌<◌, length, none, some, Option-cases, inl, inr, le→ltb, lt→ltb, ◌≡◌,
  ap, ◌∙◌, arith,
}
use native.Mathlib.Nat.{mod-add-mod, mod-eq_of_lt, mod-lt}
use odr_source_companion.OrderedQueue.Stock.{lookup}
use odr_source_companion.OrderedQueue.{
  OrderedQueue, OrderedQueueData, SearchResult, found, waiting, search_from,
}

-- The search from `i` ends at `i + steps`, going round at `max_index`, and met nothing before.
pub record FoundAfter (q : OrderedQueue) (i steps : ℕ) (s : SearchResult) : Type 0 where
  pub oqd : OrderedQueueData
  pub ends : s ≡ found ((i + steps) % q.max_index) oqd
  pub filed : lookup ((i + steps) % q.max_index) q.stock ≡ some oqd
  pub gap : (j : ℕ) → j < steps → lookup ((i + j) % q.max_index) q.stock ≡ none

-- One round: a frame at the index ends the search, a missing one ends it if there is room, and
-- else the search goes on.
module _ (fuel : ℕ) (q : OrderedQueue) (i : ℕ) where
  search_from-found :
      (d : OrderedQueueData) → lookup i q.stock ≡ some d → search_from (suc fuel) q i ≡ found i d
  unfolding search_from
  search_from-found d at = rw (at, search_from)

  search_from-waiting :
      lookup i q.stock ≡ none → length q.stock < q.capacity → search_from (suc fuel) q i ≡ waiting
  unfolding search_from
  search_from-waiting empty room = rw (empty, search_from, lt→ltb (length q.stock) q.capacity room)

  search_from-skip :
      lookup i q.stock ≡ none
      → q.capacity ≤ length q.stock
      → search_from (suc fuel) q i ≡ search_from fuel q ((i + 1) % q.max_index)
  unfolding search_from
  search_from-skip empty full = rw (empty, search_from, le→ltb (length q.stock) q.capacity full)

module _ (q : OrderedQueue) (cyclic : 0 < q.max_index) where
  next-add : (i k : ℕ) → ((i + 1) % q.max_index + k) % q.max_index ≡ (i + suc k) % q.max_index
  next-add i k = mod-add-mod (i + 1) q.max_index k ∙ ap (λ (t : ℕ). t % q.max_index) (omega arith)

  here : (i : ℕ) → i < q.max_index → (i + 0) % q.max_index ≡ i
  here i h = ap (λ (t : ℕ). t % q.max_index) (let e : i + 0 ≡ i = omega arith in e) ∙ mod-eq_of_lt h

  FoundAfter-here :
      (fuel i : ℕ) (d : OrderedQueueData)
      → i < q.max_index
      → lookup i q.stock ≡ some d
      → FoundAfter q i 0 (search_from (suc fuel) q i)
  FoundAfter-here fuel i d hi at = record {
    oqd = d;
    ends = rw (here i hi) (search_from-found fuel q i d at);
    filed = rw (here i hi) at;
    gap = λ j h. absurd (omega arith);
  }

  FoundAfter-next :
      (fuel i k : ℕ)
      → i < q.max_index
      → lookup i q.stock ≡ none
      → q.capacity ≤ length q.stock
      → FoundAfter q ((i + 1) % q.max_index) k (search_from fuel q ((i + 1) % q.max_index))
      → FoundAfter q i (suc k) (search_from (suc fuel) q i)
  FoundAfter-next fuel i k hi empty full rest = record {
    oqd = rest.oqd;
    ends = search_from-skip fuel q i empty full ∙ rw (← next-add i k) rest.ends;
    filed = rw (← next-add i k) rest.filed;
    gap = λ j h. gap_at j h;
  }
    where
      gap_at : (j : ℕ) → j < suc k → lookup ((i + j) % q.max_index) q.stock ≡ none
      gap_at zero h = rw (here i hi) empty
      gap_at (suc j) h = rw (← next-add i j) (rest.gap j (omega arith))

  -- When the queue is full and a frame stands `steps` ahead, fuel above `steps` finds the first.
  pub search_from-full :
      (fuel steps i : ℕ)
      → i < q.max_index
      → q.capacity ≤ length q.stock
      → steps < fuel
      → (d : OrderedQueueData) → lookup ((i + steps) % q.max_index) q.stock ≡ some d
      → (k : ℕ) × (k ≤ steps) × FoundAfter q i k (search_from fuel q i)
  search_from-full zero steps i hi full h d e = absurd (omega arith)
  search_from-full (suc fuel) zero i hi full h d e =
      (0, omega arith, FoundAfter-here fuel i d hi (rw (here i hi) at e))
  search_from-full (suc fuel) (suc steps) i hi full h d e = elim (Option-cases (lookup i q.stock)) [
    | inr (oqd, at) ↦ (0, omega arith, FoundAfter-here fuel i oqd hi at)
    | inl empty ↦
        let (k, le, rest) =
          search_from-full fuel steps ((i + 1) % q.max_index) (mod-lt _ cyclic) full (omega arith) d
            (rw (next-add i steps) e) in
        (suc k, omega arith, FoundAfter-next fuel i k hi empty full rest)
  ]

-- The same with any fuel at all.
pub search_from-break :
    (fuel : ℕ) (q : OrderedQueue) (i : ℕ)
    → 0 < fuel
    → lookup i q.stock ≡ none
    → length q.stock < q.capacity
    → search_from fuel q i ≡ waiting
search_from-break zero q i some_fuel = absurd (omega arith)
search_from-break (suc fuel) q i some_fuel = search_from-waiting fuel q i

pub FoundAfter-now :
    (fuel : ℕ) (q : OrderedQueue) (i : ℕ) (d : OrderedQueueData)
    → i < q.max_index
    → 0 < fuel
    → lookup i q.stock ≡ some d
    → FoundAfter q i 0 (search_from fuel q i)
FoundAfter-now zero q i d below some_fuel = absurd (omega arith)
FoundAfter-now (suc fuel) q i d below some_fuel = FoundAfter-here q (omega arith) fuel i d below
