-- ===== src/OrderedQueue.antt =====
-- src/OrderedQueue.cpp and src/OrderedQueue.h: the jitter buffer that takes frames by their index,
-- in any order, and gives them back in the cyclic order of the indexes.
pub mod Stock
pub mod Invariant
pub mod Search
pub mod Pop
pub mod Delivery
use odr_source_companion.Base.{
  ℕ, zero, suc, ◌+◌, ◌-◌, ◌%◌, ◌^◌, ltb, ◌==◌, if◌then◌else◌, Bool, List, [], ◌∷◌, length, Option,
  none, some, not,
}
use Stock.{lookup, insert, erase}

-- A `system_clock::time_point`: a count of milliseconds.
abbrev pub Timestamp : Type 0
Timestamp = ℕ

pub record OrderedQueueData : Type 0 where
  pub buf : List ℕ
  pub capture_timestamp : Timestamp

-- `last_index_pop` is `none` where the source has -1.
pub record OrderedQueue : Type 0 where
  pub max_index : ℕ
  pub capacity : ℕ
  pub duplicated : ℕ
  pub overruns : ℕ
  pub last_index_pop : Option ℕ
  pub stock : List (ℕ × OrderedQueueData)

unfoldable pub new : ℕ → ℕ → OrderedQueue
new max_index capacity = record {
  max_index = max_index;
  capacity = capacity;
  duplicated = 0;
  overruns = 0;
  last_index_pop = none;
  stock = [];
}

abbrev pub is_some {ℓ} : {A : Type ℓ} → Option A → Bool
is_some none = Bool.false
is_some (some _) = Bool.true

-- The index that `push` files a frame under. The callers' indexes are not negative.
abbrev pub wrap : OrderedQueue → ℕ → ℕ
wrap q index = (index + q.max_index) % q.max_index

-- The first frame makes the index initialisation.
abbrev pub start : OrderedQueue → ℕ → Option ℕ
start q i = elim q.last_index_pop [
  | none ↦ some ((i + q.max_index - 1) % q.max_index)
  | some l ↦ some l
]

-- The counters are `uint64_t`. The messages on stderr are left out.
unfoldable pub push : OrderedQueue → ℕ → List ℕ → Timestamp → OrderedQueue
push q index buf ts =
    let i = wrap q index in
    if ltb (length q.stock) q.capacity
    then record q {
      last_index_pop = start q i;
      duplicated = if is_some (lookup i q.stock) then (q.duplicated + 1) % 2 ^ 64 else q.duplicated;
      stock = insert i (record { buf = buf; capture_timestamp = ts }) q.stock;
    }
    else record q { last_index_pop = start q i; overruns = (q.overruns + 1) % 2 ^ 64 }

unfoldable pub available_data : OrderedQueue → Bool
available_data q = ltb 0 (length q.stock)

-- How the loop of `pop` ends: with a frame, by `break`, or not within the fuel.
pub data SearchResult : Type 0 where
  found : ℕ → OrderedQueueData → SearchResult
  waiting : SearchResult
  out_of_fuel : SearchResult

-- The loop of `pop` at `nextIndex`; the fuel counts its rounds. `gap` is only printed.
unfoldable pub search_from : ℕ → OrderedQueue → ℕ → SearchResult
search_from zero q i = out_of_fuel
search_from (suc fuel) q i = elim (lookup i q.stock) [
  | some oqd ↦ found i oqd
  | none ↦
      let rest = search_from fuel q ((i + 1) % q.max_index) in
      if ltb (length q.stock) q.capacity then waiting else rest
]

-- `(_lastIndexPop + 1) % _maxIndex`
abbrev pub next_index : OrderedQueue → ℕ
next_index q = elim q.last_index_pop [ none ↦ 0 | some l ↦ (l + 1) % q.max_index ]

abbrev pub no_data : OrderedQueueData
no_data = record { buf = []; capture_timestamp = 0 }

-- What `pop` returns, what it stores through `returnedIndex`, and the queue that it leaves.
pub record Popped : Type 0 where
  pub oqd : OrderedQueueData
  pub returned_index : Option ℕ
  pub queue : OrderedQueue

abbrev pub take_out : OrderedQueue → SearchResult → Option Popped
take_out q (found i oqd) = some (record {
  oqd = oqd;
  returned_index = some i;
  queue = record q { last_index_pop = some i; stock = erase i q.stock };
})
take_out q waiting = some (record { oqd = no_data; returned_index = none; queue = q })
take_out q out_of_fuel = none

-- One round for each index is enough; `none` is a loop that goes on for ever.
unfoldable pub pop : OrderedQueue → Option Popped
unfolding search_from
pop q =
    if ltb 0 (length q.stock)
    then take_out q (search_from q.max_index q (next_index q))
    else some (record { oqd = no_data; returned_index = none; queue = q })
