-- ===== src/ThreadsafeQueue.antt =====
-- lib/ThreadsafeQueue.h: the queue between a producer and a consumer thread. An operation holds the
-- mutex from its test to its change, so each is one step of the state; a wait on a condition is a
-- step that is not taken yet.
pub mod Overflow
pub mod Order
use odr_source_companion.Base.{
  ℕ, zero, suc, ltb, ◌==◌, if◌then◌else◌, Bool, true, false, not, ◌&&◌, List, [], ◌∷◌, ◌++◌, length,
  Option, none, some,
}

-- The mutex and the two conditions hold no data.
pub record ThreadsafeQueue {ℓ} (T : Type ℓ) : Type ℓ where
  pub the_queue : List T
  pub wakeup_requested : Bool

pub record PushOverflowResult {ℓ} (T : Type ℓ) : Type ℓ where
  pub overflowed : Bool
  pub new_size : ℕ
  pub queue : ThreadsafeQueue T

-- How a call of `wait_and_pop` goes on: it waits for a notification, throws
-- ThreadsafeQueueWakeup, takes the front, or reads the front of an empty queue, which is undefined.
pub data Popping {ℓ} (T : Type ℓ) : Type ℓ where
  waiting : Popping T
  wakeup : ThreadsafeQueue T → Popping T
  popped : T → ThreadsafeQueue T → Popping T
  undefined : Popping T

module _ {ℓ} {T : Type ℓ} where
  abbrev pub empty : ThreadsafeQueue T → Bool
  empty self = length self.the_queue == 0

  abbrev pub size : ThreadsafeQueue T → ℕ
  size self = length self.the_queue

  -- The new size, and the queue. A `max_size` of 0 is no limit.
  unfoldable pub push : ThreadsafeQueue T → T → ℕ → ℕ × ThreadsafeQueue T
  push self val max_size =
      let pushed =
        if max_size == 0
        then self.the_queue ++ val ∷ []
        else if ltb (length self.the_queue) max_size
        then self.the_queue ++ val ∷ []
        else self.the_queue in
      (length pushed, record self { the_queue = pushed })

  -- `while (the_queue.size() >= max_size) { overflow = true; the_queue.pop(); }`, one round for each
  -- element at most.
  unfoldable pub drop_oldest : List T → ℕ → Bool → List T × Bool
  drop_oldest [] max_size overflow = ([], overflow)
  drop_oldest (x ∷ xs) max_size overflow =
      let rest = drop_oldest xs max_size true in
      if ltb (length (x ∷ xs)) max_size then (x ∷ xs, overflow) else rest

  -- `none` is a failed assertion.
  unfoldable pub push_overflow : ThreadsafeQueue T → T → ℕ → Option (PushOverflowResult T)
  push_overflow self val max_size =
      let kept = drop_oldest self.the_queue max_size false in
      if max_size == 0
      then none
      else some (record {
        overflowed = kept.1;
        new_size = length (kept.0 ++ val ∷ []);
        queue = record self { the_queue = kept.0 ++ val ∷ [] };
      })

  -- `none` is a call that waits until the queue is below the threshold.
  unfoldable pub push_wait_if_full : ThreadsafeQueue T → T → ℕ → Option (ℕ × ThreadsafeQueue T)
  push_wait_if_full self val threshold =
      if ltb (length self.the_queue) threshold
      then some (
        length (self.the_queue ++ val ∷ []),
        record self { the_queue = self.the_queue ++ val ∷ [] },
      )
      else none

  unfoldable pub trigger_wakeup : ThreadsafeQueue T → ThreadsafeQueue T
  trigger_wakeup self = record self { wakeup_requested = true }

  -- `none` is the result false.
  abbrev pub take_front : Bool → List T → Option (T × ThreadsafeQueue T)
  take_front requested [] = none
  take_front requested (x ∷ xs) = some (x, record { the_queue = xs; wakeup_requested = requested })

  unfoldable pub try_pop : ThreadsafeQueue T → Option (T × ThreadsafeQueue T)
  try_pop self = take_front self.wakeup_requested self.the_queue

  unfoldable pub wait_and_pop : ThreadsafeQueue T → ℕ → Popping T
  wait_and_pop self prebuffering =
      if ltb (length self.the_queue) prebuffering && not self.wakeup_requested
      then waiting
      else if self.wakeup_requested
      then wakeup (record self { wakeup_requested = false })
      else elim (take_front self.wakeup_requested self.the_queue) [
        | none ↦ undefined
        | some (x, self') ↦ popped x self'
      ]
