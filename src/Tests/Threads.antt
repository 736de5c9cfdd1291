-- ===== src/Tests/Threads.antt =====
-- lib/ThreadsafeQueue.h at queues of numbers.
use odr_source_companion.Base.{ℕ, true, false, [], ◌∷◌, ◌++◌, some, ◌≡◌, refl}
use odr_source_companion.ThreadsafeQueue.{
  ThreadsafeQueue, drop_oldest, push, push_overflow, trigger_wakeup, wait_and_pop,
}
use odr_source_companion.ThreadsafeQueue.Order.{
  pushes, wakes, throws, takes, Run, stop, step, Run-fifo,
}

abbrev two_elements : ThreadsafeQueue ℕ
two_elements = record { the_queue = 5 ∷ 6 ∷ []; wakeup_requested = false }

pushed_out :
    push_overflow two_elements 7 2
    ≡ some (record {
      overflowed = true;
      new_size = 2;
      queue = record { the_queue = 6 ∷ 7 ∷ []; wakeup_requested = false };
    })
unfolding push_overflow drop_oldest
pushed_out = refl

abbrev three_elements : ThreadsafeQueue ℕ
three_elements = record { the_queue = 5 ∷ 6 ∷ 7 ∷ []; wakeup_requested = false }

-- A push, a wakeup that is thrown, and a pop.
some-Run :
    Run two_elements (7 ∷ []) (5 ∷ []) (record { the_queue = 6 ∷ 7 ∷ []; wakeup_requested = false })
unfolding push trigger_wakeup wait_and_pop
some-Run = step {next = three_elements} pushes (
    step {next = record three_elements { wakeup_requested = true }} wakes
      (step {next = three_elements} (throws 1 refl) (step (takes 3 refl) stop)))

Run-fifo_example : (5 ∷ []) ++ (6 ∷ 7 ∷ []) ≡ two_elements.the_queue ++ (7 ∷ [])
Run-fifo_example = Run-fifo some-Run
