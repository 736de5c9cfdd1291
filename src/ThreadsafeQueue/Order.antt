-- ===== src/ThreadsafeQueue/Order.antt =====
-- The producer and the consumer of the thread-safe queue as steps, in any order.
use odr_source_companion.Base.{
  and_false, ℕ, suc, ◌≤◌, ◌<◌, ltb, if◌then◌else◌, not, ◌&&◌, Bool, true, false, Bool-cases, inl,
  inr, List, [], ◌∷◌, ◌++◌, length, append_assoc, append-nil, Option, none, some, ◌≡◌, refl, subst,
  ap, sym, ◌∙◌, arith, lt→ltb, le→ltb,
}
use native.Mathlib.Decide.{dec_lt}
use odr_source_companion.ThreadsafeQueue.{
  ThreadsafeQueue, Popping, waiting, wakeup, popped, undefined, take_front, push, push_wait_if_full,
  trigger_wakeup, try_pop, wait_and_pop,
}

-- A step that returns, with what it puts in and what it takes out. `push` has no limit here.
pub data Step {ℓ} {T : Type ℓ}
    : ThreadsafeQueue T → List T → List T → ThreadsafeQueue T → Type ℓ where
  pushes : {self : ThreadsafeQueue T} {val : T} → Step self (val ∷ []) [] (push self val 0).1
  pushes_below :
      {self self' : ThreadsafeQueue T} {val : T} {n : ℕ} (threshold : ℕ)
      → push_wait_if_full self val threshold ≡ some (n, self')
      → Step self (val ∷ []) [] self'
  wakes : {self : ThreadsafeQueue T} → Step self [] [] (trigger_wakeup self)
  tries :
      {self self' : ThreadsafeQueue T} {val : T}
      → try_pop self ≡ some (val, self')
      → Step self [] (val ∷ []) self'
  takes :
      {self self' : ThreadsafeQueue T} {val : T} (prebuffering : ℕ)
      → wait_and_pop self prebuffering ≡ popped val self'
      → Step self [] (val ∷ []) self'
  throws :
      {self self' : ThreadsafeQueue T} (prebuffering : ℕ)
      → wait_and_pop self prebuffering ≡ wakeup self'
      → Step self [] [] self'

-- Steps one after the other.
pub data Run {ℓ} {T : Type ℓ}
    : ThreadsafeQueue T → List T → List T → ThreadsafeQueue T → Type ℓ where
  stop : {self : ThreadsafeQueue T} → Run self [] [] self
  step :
      {self next last : ThreadsafeQueue T} {pushed taken pushed' taken' : List T}
      → Step self pushed taken next
      → Run next pushed' taken' last
      → Run self (pushed ++ pushed') (taken ++ taken') last

-- The outcomes of `wait_and_pop` with a `prebuffering` of `n + 1`.
pub data Pops {ℓ} {T : Type ℓ} (self : ThreadsafeQueue T) (n : ℕ) : Popping T → Type ℓ where
  throws_wakeup :
      self.wakeup_requested ≡ true → Pops self n (wakeup (record self { wakeup_requested = false }))
  waits_for_more : self.wakeup_requested ≡ false → length self.the_queue ≤ n → Pops self n waiting
  takes_oldest :
      (x : T) (xs : List T)
      → self.wakeup_requested ≡ false
      → n < length self.the_queue
      → self.the_queue ≡ x ∷ xs
      → Pops self n (popped x (record { the_queue = xs; wakeup_requested = false }))

module _ {ℓ} {T : Type ℓ} where
  take_front-some :
      (requested : Bool) (xs : List T) (val : T) (self' : ThreadsafeQueue T)
      → take_front requested xs ≡ some (val, self')
      → val ∷ self'.the_queue ≡ xs
  take_front-some requested [] val self' e = cc
  take_front-some requested (x ∷ xs) val self' e = cc

  below_lem :
      (b : Bool) (done : ℕ × ThreadsafeQueue T) (n : ℕ) (next : ThreadsafeQueue T)
      → (if b then some done else none) ≡ some (n, next)
      → done.1 ≡ next
  below_lem true done n next e = cc
  below_lem false done n next e = cc

  -- The two outcomes of `wait_and_pop` that change the queue.
  wait_and_pop_popped :
      (b : Bool) (self : ThreadsafeQueue T) (val : T) (next : ThreadsafeQueue T)
      (front : Option (T × ThreadsafeQueue T))
      → (if b
          then waiting
          else if self.wakeup_requested
          then wakeup (record self { wakeup_requested = false })
          else elim front [ none ↦ undefined | some (x, self') ↦ popped x self' ])
        ≡ popped val next
      → front ≡ some (val, next)
  wait_and_pop_popped b self val next front e = ground arith

  wait_and_pop_wakeup :
      (b : Bool) (self : ThreadsafeQueue T) (next : ThreadsafeQueue T)
      (front : Option (T × ThreadsafeQueue T))
      → (if b
          then waiting
          else if self.wakeup_requested
          then wakeup (record self { wakeup_requested = false })
          else elim front [ none ↦ undefined | some (x, self') ↦ popped x self' ])
        ≡ wakeup next
      → next ≡ record self { wakeup_requested = false }
  wait_and_pop_wakeup b self next front e = ground arith

  Step-fifo :
      {self next : ThreadsafeQueue T} {pushed taken : List T}
      → Step self pushed taken next
      → taken ++ next.the_queue ≡ self.the_queue ++ pushed
  unfolding push push_wait_if_full trigger_wakeup try_pop wait_and_pop
  Step-fifo pushes = refl
  Step-fifo (pushes_below threshold e) =
      ap (λ (q : ThreadsafeQueue T). q.the_queue) (sym (below_lem _ _ _ _ e))
  Step-fifo wakes = sym (append-nil _)
  Step-fifo (tries e) = take_front-some _ _ _ _ e ∙ sym (append-nil _)
  Step-fifo (takes {self} {self'} {val} prebuffering e) =
      take_front-some self.wakeup_requested self.the_queue val self' (
        wait_and_pop_popped (ltb (length self.the_queue) prebuffering && not self.wakeup_requested)
          self val self' (take_front self.wakeup_requested self.the_queue) e)
      ∙ sym (append-nil _)
  Step-fifo (throws {self} {self'} prebuffering e) =
      ap (λ (q : ThreadsafeQueue T). q.the_queue)
        (wait_and_pop_wakeup (ltb (length self.the_queue) prebuffering && not self.wakeup_requested)
          self self' (take_front self.wakeup_requested self.the_queue) e)
      ∙ sym (append-nil _)

  -- In every sequence of pushes without a limit, pushes that wait for a threshold, wakeups, and pops
  -- that take an element or throw, what is taken out, with what is left, is what stood in the queue
  -- and what was put in, in that order. A push with a limit, which may drop an element, and
  -- `push_overflow`, which does, are not among these.
  pub Run-fifo :
      {self last : ThreadsafeQueue T} {pushed taken : List T}
      → Run self pushed taken last
      → taken ++ last.the_queue ≡ self.the_queue ++ pushed
  Run-fifo stop = sym (append-nil _)
  Run-fifo (step {self} {next} {last} {pushed} {taken} {pushed'} {taken'} s r) =
      append_assoc taken taken' last.the_queue
      ∙ ap (λ (l : List T). taken ++ l) (Run-fifo r)
      ∙ sym (append_assoc taken next.the_queue pushed')
      ∙ ap (λ (l : List T). l ++ pushed') (Step-fifo s)
      ∙ append_assoc self.the_queue pushed pushed'

  wait_takes :
      (xs : List T) (requested : Bool) (n : ℕ)
      → requested ≡ false
      → n < length xs
      → (y : T) × (ys : List T) × (xs ≡ y ∷ ys)
        × (wait_and_pop (record { the_queue = xs; wakeup_requested = requested }) (suc n)
            ≡ popped y (record { the_queue = ys; wakeup_requested = false }))
  unfolding wait_and_pop
  wait_takes [] requested n e h = absurd (omega arith)
  wait_takes (x ∷ xs) requested n e h =
      (x, xs, refl, rw (le→ltb (length (x ∷ xs)) (suc n) h, e) refl)

  -- In a queue that asks for a wakeup or not, `wait_and_pop` with a `prebuffering` of 1 or more has
  -- one of three outcomes, and never reads the front of an empty queue: a requested wakeup is thrown
  -- and cleared, and no element is lost; otherwise the call waits while fewer elements are there
  -- than asked for, or takes the oldest one.
  pub wait_and_pop-Pops :
      (self : ThreadsafeQueue T) (n : ℕ) → Pops self n (wait_and_pop self (suc n))
  unfolding wait_and_pop
  wait_and_pop-Pops self n = elim (Bool-cases self.wakeup_requested) [
    | inl e ↦
        let run : wait_and_pop self (suc n) ≡ wakeup (record self { wakeup_requested = false }) =
          rw (e, and_false (ltb (length self.the_queue) (suc n))) refl in
        subst (Pops self n) (sym run) (throws_wakeup e)
    | inr e ↦ elim (dec_lt n (length self.the_queue)) [
      | yes h ↦
          let (x, xs, q, run) = wait_takes self.the_queue self.wakeup_requested n e h in
          subst (Pops self n) (sym run) (takes_oldest x xs e h q)
      | no h ↦
          let run : wait_and_pop self (suc n) ≡ waiting =
            rw (e, lt→ltb (length self.the_queue) (suc n) (omega (arith, h))) refl in
          subst (Pops self n) (sym run) (waits_for_more e (omega (arith, h)))
    ]
  ]

-- With no wakeup requested, the oldest element is taken.
pub wait_and_pop-front {ℓ} :
    {T : Type ℓ} (x : T) (xs : List T)
    → wait_and_pop (record { the_queue = x ∷ xs; wakeup_requested = false }) 1
      ≡ popped x (record { the_queue = xs; wakeup_requested = false })
unfolding wait_and_pop
wait_and_pop-front x xs = rw (le→ltb (suc (length xs)) 1 (omega arith)) refl
