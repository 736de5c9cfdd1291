-- ===== src/Tests/Queue.antt =====
-- src/OrderedQueue.cpp at a queue of five indexes that holds three frames.
use odr_source_companion.Base.{
  ℕ, zero, suc, ◌+◌, ◌*◌, ◌%◌, ◌<◌, List, [], ◌∷◌, tabulate, some, ◌≡◌, refl, ◌⊎◌, arith,
}
use odr_source_companion.OrderedQueue.{OrderedQueue, OrderedQueueData, Popped, new, push, pop}
use odr_source_companion.OrderedQueue.Stock.{KeysBelow, DistinctKeys, lookup}
use odr_source_companion.OrderedQueue.Invariant.{IsValid, new-IsValid, push-IsValid}
use odr_source_companion.OrderedQueue.Pop.{Waits, Delivers, pop_lem}
use odr_source_companion.OrderedQueue.Delivery.{push_all, drain, drain-push_all}

abbrev frame_of : ℕ → OrderedQueueData
frame_of n = record { buf = n ∷ []; capture_timestamp = n * 24 }

abbrev empty_queue : OrderedQueue
empty_queue = record (new 5 3) { last_index_pop = some 3 }

empty_queue-IsValid : IsValid empty_queue
unfolding new
empty_queue-IsValid =
    let v = new-IsValid 5 3 (omega arith) in
    record {
      cyclic = v.cyclic;
      bounded = v.bounded;
      keys_below = v.keys_below;
      distinct = v.distinct;
      last_below = omega arith;
    }

abbrev one_frame : OrderedQueue
one_frame = push (new 5 3) 7 (9 ∷ []) 24

one_frame-IsValid : IsValid one_frame
one_frame-IsValid = push-IsValid (new 5 3) 7 (9 ∷ []) 24 (new-IsValid 5 3 (omega arith))

pop_lem_example :
    (p : Popped) × (pop one_frame ≡ some p) × (Waits one_frame p ⊎ Delivers one_frame p)
pop_lem_example = pop_lem one_frame one_frame-IsValid

-- Frames 4, 0 and 1 arrive as 0, 1, 4.
abbrev out_of_order : List (ℕ × OrderedQueueData)
out_of_order = (0, frame_of 0) ∷ (1, frame_of 1) ∷ (4, frame_of 4) ∷ []

abbrev in_cycle_order : ℕ → OrderedQueueData
in_cycle_order j = frame_of ((j + 4) % 5)

arrived : (j : ℕ) → j < 3 → lookup ((3 + 1 + j) % 5) out_of_order ≡ some (in_cycle_order j)
unfolding lookup
arrived zero h = refl
arrived (suc zero) h = refl
arrived (suc (suc zero)) h = refl
arrived (suc (suc (suc j))) h = absurd (omega arith)

out_of_order-KeysBelow : KeysBelow 5 out_of_order
out_of_order-KeysBelow = (omega arith, (omega arith, (omega arith, tt)))

out_of_order-DistinctKeys : DistinctKeys out_of_order
unfolding lookup
out_of_order-DistinctKeys = (refl, (refl, (refl, tt)))

drain-push_all_example :
    (r : OrderedQueue) × (drain 3 (push_all empty_queue out_of_order)
      ≡ some (tabulate in_cycle_order 3 0, r))
unfolding new
drain-push_all_example =
    drain-push_all empty_queue 3 3 out_of_order in_cycle_order empty_queue-IsValid refl refl
      (omega arith) (omega arith) out_of_order-KeysBelow out_of_order-DistinctKeys arrived
