-- ===== src/OrderedQueue/Invariant.antt =====
-- The invariant of OrderedQueue, which `push` keeps, and what `push` does to the stock.
use odr_source_companion.Base.{
  ℕ, suc, ◌+◌, ◌-◌, ◌%◌, ◌^◌, ◌≤◌, ◌<◌, ltb, ◌==◌, if◌then◌else◌, List, length, Option, none, some,
  Bool-cases, inl, inr, ◌≡◌, refl, arith,
}
use odr_source_companion.OrderedQueue.Stock.{
  lookup, DistinctKeys, KeysBelow, lookup-insert, insert-DistinctKeys, insert-KeysBelow,
  length-insert,
}
use odr_source_companion.OrderedQueue.{OrderedQueue, OrderedQueueData, Timestamp, new, push, wrap}

-- `last` can be -1 only before the first frame.
abbrev pub IsLast : ℕ → ℕ → Option ℕ → Type 0
IsLast max_index size none = size ≡ 0
IsLast max_index size (some l) = l < max_index

pub record IsValid (q : OrderedQueue) : Type 0 where
  pub cyclic : 0 < q.max_index
  pub bounded : length q.stock ≤ q.capacity
  pub keys_below : KeysBelow q.max_index q.stock
  pub distinct : DistinctKeys q.stock
  pub last_below : IsLast q.max_index (length q.stock) q.last_index_pop

-- A new queue is valid.
pub new-IsValid : (max_index capacity : ℕ) → 0 < max_index → IsValid (new max_index capacity)
unfolding new
new-IsValid max_index capacity h = record {
  cyclic = h;
  bounded = omega arith;
  keys_below = tt;
  distinct = tt;
  last_below = refl;
}

pub wrap-lt : (q : OrderedQueue) (index : ℕ) → 0 < q.max_index → wrap q index < q.max_index
wrap-lt q index h = omega arith

start-IsLast :
    (n i size size' : ℕ) (last : Option ℕ)
    → 0 < n
    → IsLast n size last
    → IsLast n size' (elim last [ none ↦ some ((i + n - 1) % n) | some l ↦ some l ])
start-IsLast n i size size' none h l = omega arith
start-IsLast n i size size' (some k) h l = l

-- `push` keeps the invariant, whatever the index.
pub push-IsValid :
    (q : OrderedQueue) (index : ℕ) (buf : List ℕ) (ts : Timestamp)
    → IsValid q
    → IsValid (push q index buf ts)
unfolding push
push-IsValid q index buf ts v =
    let i = wrap q index in
    let oqd : OrderedQueueData = record { buf = buf; capture_timestamp = ts } in
    elim (Bool-cases (ltb (length q.stock) q.capacity)) [
      | inl room ↦ rw room (record {
        cyclic = v.cyclic;
        bounded = ground (arith, length-insert i oqd q.stock, v.bounded);
        keys_below =
            insert-KeysBelow q.max_index i oqd q.stock (wrap-lt q index v.cyclic) v.keys_below;
        distinct = insert-DistinctKeys i oqd q.stock v.distinct;
        last_below = start-IsLast q.max_index i _ _ q.last_index_pop v.cyclic v.last_below;
      })
      | inr full ↦ rw full (record {
        cyclic = v.cyclic;
        bounded = v.bounded;
        keys_below = v.keys_below;
        distinct = v.distinct;
        last_below = start-IsLast q.max_index i _ _ q.last_index_pop v.cyclic v.last_below;
      })
    ]

-- With room, `push` files the frame under the wrapped index, in place of one that stood there, and
-- moves no other; without room it counts an overrun, and the stock stays as it was.
pub lookup-push :
    (q : OrderedQueue) (index : ℕ) (buf : List ℕ) (ts : Timestamp) (j : ℕ)
    → (lookup j (push q index buf ts).stock ≡ (
        if ltb (length q.stock) q.capacity
        then (if wrap q index == j
            then some (record { buf = buf; capture_timestamp = ts })
            else lookup j q.stock)
        else lookup j q.stock))
      × ((push q index buf ts).overruns
          ≡ (if ltb (length q.stock) q.capacity then q.overruns else (q.overruns + 1) % 2 ^ 64))
unfolding push
lookup-push q index buf ts j = elim (Bool-cases (ltb (length q.stock) q.capacity)) [
  | inl room ↦ rw room (lookup-insert (wrap q index) j _ q.stock, refl)
  | inr full ↦ rw full (refl, refl)
]

-- What a `push` leaves alone, and how far the stock grows.
pub record Kept (q r : OrderedQueue) : Type 0 where
  pub same_size : r.max_index ≡ q.max_index
  pub same_capacity : r.capacity ≡ q.capacity
  pub grows : length r.stock ≤ suc (length q.stock)
  pub same_last : (l : ℕ) → q.last_index_pop ≡ some l → r.last_index_pop ≡ some l

pub push-Kept :
    (q : OrderedQueue) (index : ℕ) (buf : List ℕ) (ts : Timestamp) → Kept q (push q index buf ts)
unfolding push
push-Kept q index buf ts =
    let i = wrap q index in
    let oqd : OrderedQueueData = record { buf = buf; capture_timestamp = ts } in
    elim (Bool-cases (ltb (length q.stock) q.capacity)) [
      | inl room ↦ rw room (record {
        same_size = refl;
        same_capacity = refl;
        grows = ground (arith, length-insert i oqd q.stock);
        same_last = λ l e. rw e refl;
      })
      | inr full ↦ rw full (record {
        same_size = refl;
        same_capacity = refl;
        grows = omega arith;
        same_last = λ l e. rw e refl;
      })
    ]
