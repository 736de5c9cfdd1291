-- ===== src/OrderedQueue/Pop.antt =====
-- `OrderedQueue::pop` on each of its branches: it always returns, keeps the invariant, and takes
-- out the first frame in cyclic order.
use odr_source_companion.Base.{
  ℕ, suc, ◌+◌, ◌-◌, ◌%◌, ◌≤◌, ◌<◌, ◌==◌, if◌then◌else◌, List, [], ◌∷◌, length, Option, none, some,
  Option-cases, inl, inr, ◌⊎◌, le→ltb, lt→ltb, ◌≡◌, refl, ap, sym, ◌∙◌, arith,
}
use native.Mathlib.Nat.{add-zero, mod-eq_of_lt, mod-lt}
use native.Mathlib.Decide.{dec_lt}
use odr_source_companion.OrderedQueue.Stock.{
  lookup, erase, lookup-erase, erase-DistinctKeys, erase-KeysBelow, length-erase, KeysBelow,
}
use odr_source_companion.OrderedQueue.{
  OrderedQueue, OrderedQueueData, waiting, search_from, next_index, take_out, pop, Popped, no_data,
}
use odr_source_companion.OrderedQueue.Invariant.{IsValid}
use odr_source_companion.OrderedQueue.Search.{
  FoundAfter, search_from-full, search_from-break, FoundAfter-now,
}

next_index-lt : (q : OrderedQueue) → IsValid q → next_index q < q.max_index
next_index-lt q v = below q.max_index q.last_index_pop v.cyclic
  where
    below : (n : ℕ) (last : Option ℕ) → 0 < n → elim last [ none ↦ 0 | some l ↦ (l + 1) % n ] < n
    below n none h = h
    below n (some l) h = mod-lt _ h

-- The frame `steps` places after the last one popped, with nothing filed in between.
pub record TakesOut (q : OrderedQueue) (steps : ℕ) (p : Popped) : Type 0 where
  pub index : ℕ
  pub place : index ≡ (next_index q + steps) % q.max_index
  pub returned : p.returned_index ≡ some index
  pub filed : lookup index q.stock ≡ some p.oqd
  pub gap : (j : ℕ) → j < steps → lookup ((next_index q + j) % q.max_index) q.stock ≡ none
  pub remembered : p.queue.last_index_pop ≡ some index
  pub rest : (j : ℕ) → lookup j p.queue.stock ≡ (if index == j then none else lookup j q.stock)
  pub same_size : p.queue.max_index ≡ q.max_index
  pub same_capacity : p.queue.capacity ≡ q.capacity
  pub shorter : suc (length p.queue.stock) ≡ length q.stock
  pub still_valid : IsValid p.queue

nonempty :
    (q : OrderedQueue) (i : ℕ) (d : OrderedQueueData)
    → lookup i q.stock ≡ some d
    → 0 < length q.stock
nonempty q i d e = omega (arith, length-erase i q.stock d e)

-- What the found branch of `pop` does.
TakesOut-found :
    (q : OrderedQueue) (steps : ℕ)
    → IsValid q
    → FoundAfter q (next_index q) steps (search_from q.max_index q (next_index q))
    → (p : Popped) × (pop q ≡ some p) × TakesOut q steps p
unfolding pop
TakesOut-found q steps v f =
    let i : ℕ = (next_index q + steps) % q.max_index in
    let p : Popped = record {
      oqd = f.oqd;
      returned_index = some i;
      queue = record q { last_index_pop = some i; stock = erase i q.stock };
    } in
    let shorter = length-erase i q.stock f.oqd f.filed in
    (
      p,
      rw (lt→ltb 0 (length q.stock) (nonempty q i f.oqd f.filed), f.ends) refl,
      record {
        index = i;
        place = refl;
        returned = refl;
        filed = f.filed;
        gap = f.gap;
        remembered = refl;
        rest = λ j. lookup-erase i j q.stock v.distinct;
        same_size = refl;
        same_capacity = refl;
        shorter = shorter;
        still_valid = record {
          cyclic = v.cyclic;
          bounded = omega (arith, v.bounded);
          keys_below = erase-KeysBelow q.max_index i q.stock v.keys_below;
          distinct = erase-DistinctKeys i q.stock v.distinct;
          last_below = mod-lt _ v.cyclic;
        };
      },
    )

-- Any index is reached from any other by going round.
reach : (n i j : ℕ) → i < n → j < n → (steps : ℕ) × (steps < n) × ((i + steps) % n ≡ j)
reach n i j hi hj = elim (dec_lt j i) [
  | yes below ↦ (j + n - i, omega arith, reach_round)
  | no above ↦ (j - i, omega arith, reach_up (omega arith))
]
  where
    reach_up : i ≤ j → (i + (j - i)) % n ≡ j
    reach_up le =
        ap (λ (t : ℕ). t % n) (let e : i + (j - i) ≡ j = omega arith in e) ∙ mod-eq_of_lt hj

    reach_round : (i + (j + n - i)) % n ≡ j
    reach_round =
        ap (λ (t : ℕ). t % n) (let e : i + (j + n - i) ≡ j + n = omega arith in e)
        ∙ let wrap : (j + n) % n ≡ j = grind arith in wrap

some_key :
    (n : ℕ) (m : List (ℕ × OrderedQueueData))
    → 0 < length m
    → KeysBelow n m
    → (k : ℕ) × (d : OrderedQueueData) × (k < n) × (lookup k m ≡ some d)
unfolding lookup
some_key n [] h b = absurd (omega arith)
some_key n ((k, d) ∷ m) h b = (k, d, b.0, ground arith)

-- `pop` has nothing to give: the next frame is missing, and there is room to wait for it.
pub record Waits (q : OrderedQueue) (p : Popped) : Type 0 where
  pub missing : lookup (next_index q) q.stock ≡ none
  pub room : (length q.stock ≡ 0) ⊎ (length q.stock < q.capacity)
  pub nothing : p ≡ record { oqd = no_data; returned_index = none; queue = q }

-- `pop` gives the frame `steps` places on, and skips a place only if the queue is full.
pub record Delivers (q : OrderedQueue) (p : Popped) : Type 0 where
  pub steps : ℕ
  pub in_cycle : steps < q.max_index
  pub skips_when_full : 0 < steps → length q.stock ≡ q.capacity
  pub takes : TakesOut q steps p

lookup-no_entries : (i : ℕ) (m : List (ℕ × OrderedQueueData)) → length m ≡ 0 → lookup i m ≡ none
unfolding lookup
lookup-no_entries i [] h = refl
lookup-no_entries i (e ∷ m) h = absurd (omega arith)

-- The branch on which the next frame is missing.
pop-missing :
    (q : OrderedQueue)
    → IsValid q
    → lookup (next_index q) q.stock ≡ none
    → (p : Popped) × (pop q ≡ some p) × (Waits q p ⊎ Delivers q p)
unfolding pop
pop-missing q v missing =
    let nothing : Popped = record { oqd = no_data; returned_index = none; queue = q } in
    elim (dec_lt 0 (length q.stock)) [
      | no empty ↦ (
        nothing,
        rw (le→ltb 0 (length q.stock) (omega arith)) refl,
        inl (record { missing = missing; room = inl (omega arith); nothing = refl }),
      )
      | yes filled ↦ elim (dec_lt (length q.stock) q.capacity) [
        | yes room ↦ (
          nothing,
          rw (lt→ltb 0 (length q.stock) filled, ap (take_out q) (waits room)) refl,
          inl (record { missing = missing; room = inr room; nothing = refl }),
        )
        | no full ↦
            let (k, d, below, at) = some_key q.max_index q.stock filled v.keys_below in
            let (steps, fits, arrives) =
              reach q.max_index (next_index q) k (next_index-lt q v) below in
            let (first, le, after) =
              search_from-full q v.cyclic q.max_index steps (next_index q) (next_index-lt q v)
                (omega arith) fits d (rw arrives at) in
            let (p, run, takes) = TakesOut-found q first v after in
            (
              p,
              run,
              inr (record {
                steps = first;
                in_cycle = omega arith;
                skips_when_full = λ h. omega (arith, v.bounded);
                takes = takes;
              }),
            )
      ]
    ]
  where
    waits : length q.stock < q.capacity → search_from q.max_index q (next_index q) ≡ waiting
    waits = search_from-break q.max_index q (next_index q) v.cyclic missing

-- The branch on which the next frame is there.
pub pop-next :
    (q : OrderedQueue) (d : OrderedQueueData)
    → IsValid q
    → lookup (next_index q) q.stock ≡ some d
    → (p : Popped) × (pop q ≡ some p) × TakesOut q 0 p
pop-next q d v at =
    TakesOut-found q 0 v
      (FoundAfter-now q.max_index q (next_index q) d (next_index-lt q v) v.cyclic at)

pub TakesOut-first :
    (q : OrderedQueue) (p : Popped) (d : OrderedQueueData)
    → IsValid q
    → (t : TakesOut q 0 p) → lookup (next_index q) q.stock ≡ some d
    → (t.index ≡ next_index q) × (p.oqd ≡ d)
TakesOut-first q p d v t at =
    let index : t.index ≡ next_index q =
      t.place
      ∙ ap (λ (k : ℕ). k % q.max_index) (add-zero (next_index q))
      ∙ mod-eq_of_lt (next_index-lt q v) in
    (index, some_eq (sym t.filed ∙ ap (λ (k : ℕ). lookup k q.stock) index ∙ at))
  where
    some_eq : some p.oqd ≡ some d → p.oqd ≡ d
    some_eq e = cc

-- In a valid queue the loop of `pop` ends. Either the next index is missing, the queue is empty or
-- has room, and nothing is returned or changed; or the first frame in cyclic order is returned and
-- taken out, with no other entry changed, and places are skipped only when the queue is full.
pub pop_lem :
    (q : OrderedQueue) → IsValid q → (p : Popped) × (pop q ≡ some p) × (Waits q p ⊎ Delivers q p)
pop_lem q v = elim (Option-cases (lookup (next_index q) q.stock)) [
  | inl missing ↦ pop-missing q v missing
  | inr (d, at) ↦
      let (p, run, takes) = pop-next q d v at in
      (
        p,
        run,
        inr (record {
          steps = 0;
          in_cycle = v.cyclic;
          skips_when_full = λ h. absurd (omega arith);
          takes = takes;
        }),
      )
]
