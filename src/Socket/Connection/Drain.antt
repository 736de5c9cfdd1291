-- ===== src/Socket/Connection/Drain.antt =====
-- The sender thread of TCPConnection gets rid of what is queued.
use odr_source_companion.Base.{
  ℕ, zero, suc, ◌+◌, ◌≤◌, ◌<◌, le→ltb, ◌==◌, if_false, true, false, List, [], ◌∷◌, ◌++◌, length,
  length-drop, take, drop, joined, take-append-drop, append_assoc, append-nil, All, some, ◌≡◌, refl,
  sym, ap, ◌∙◌, arith,
}
use odr_source_companion.ThreadsafeQueue.{ThreadsafeQueue, popped, wait_and_pop}
use odr_source_companion.ThreadsafeQueue.Order.{wait_and_pop-front}
use odr_source_companion.Socket.{TcpSocket, events, send}
use odr_source_companion.Socket.Connection.{
  Buffer, Sender, at_test, at_pop, sending, ended, terminated, TcpConnection, start_sending, pop,
  process,
}
use odr_source_companion.Socket.Connection.Stream.{in_flight}

-- `n` rounds in each of which the socket is ready. `kernel` says how many bytes ::send takes, for
-- the number of rounds left and the number of bytes that it is given.
unfoldable pub rounds : ℕ → (ℕ → ℕ → ℕ) → TcpConnection → TcpConnection
rounds zero kernel c = c
rounds (suc n) kernel c =
    rounds n kernel
      (process c (events true) (some (kernel n (length (in_flight c.m_sender_thread)))))

-- At least one byte of those that are given, and no more.
abbrev pub TakesSome : (ℕ → ℕ → ℕ) → Type 0
TakesSome kernel = (n asked : ℕ) → 0 < asked → (0 < kernel n asked) × (kernel n asked ≤ asked)

-- A connection that runs.
abbrev pub running : List Buffer → Sender → TcpSocket → TcpConnection
running q thread sock = record {
  queue = record { the_queue = q; wakeup_requested = false };
  m_running = true;
  m_sender_thread = thread;
  m_sock = sock;
}

abbrev pub IsActive : Sender → Type 0
IsActive at_test = Unit
IsActive at_pop = Unit
IsActive (sending buf) = Unit
IsActive ended = ⊥
IsActive (terminated buf) = ⊥

abbrev pub IsNonempty : Buffer → Type 0
IsNonempty buf = 0 < length buf

abbrev pub queue_work : List Buffer → ℕ
queue_work [] = 0
queue_work (buf ∷ q) = length buf + 3 + queue_work q

-- The number of rounds that are enough.
abbrev pub work : Sender → List Buffer → ℕ
work at_test q = suc (queue_work q)
work at_pop q = queue_work q
work (sending buf) q = length buf + 2 + queue_work q
work ended q = queue_work q
work (terminated buf) q = queue_work q

abbrev sent_to : TcpSocket → List ℕ → TcpSocket
sent_to sock bytes = record sock { stream = sock.stream ++ bytes }

nonzero : (n : ℕ) → (suc n == 0) ≡ false
nonzero n = ground arith

pop_popped :
    (c : TcpConnection) (buf : Buffer) (q : ThreadsafeQueue Buffer)
    → wait_and_pop c.queue 1 ≡ popped buf q
    → pop c ≡ start_sending c buf q
unfolding pop
pop_popped c buf q e = rw (e, pop) refl

module _ (sock : TcpSocket) (q : List Buffer) (k : ℕ) where
  test_round : process (running q at_test sock) (events true) (some k) ≡ running q at_pop sock
  unfolding process
  test_round = refl

  wait_round : process (running [] at_pop sock) (events true) (some k) ≡ running [] at_pop sock
  unfolding process wait_and_pop
  wait_round = refl

  pop_round :
      (b : ℕ) (bs : Buffer)
      → process (running ((b ∷ bs) ∷ q) at_pop sock) (events true) (some k)
        ≡ running q (sending (b ∷ bs)) sock
  unfolding process start_sending
  pop_round b bs =
      pop_popped (running ((b ∷ bs) ∷ q) at_pop sock) (b ∷ bs) _ (wait_and_pop-front (b ∷ bs) q)
      ∙ if_false _ _ _ (nonzero (length bs))

  done_round : process (running q (sending []) sock) (events true) (some k) ≡ running q at_test sock
  unfolding process
  done_round = refl

  send_round :
      (b : ℕ) (bs : List ℕ)
      → k ≤ suc (length bs)
      → process (running q (sending (b ∷ bs)) sock) (events true) (some k)
        ≡ running q (sending (drop k (b ∷ bs))) (sent_to sock (take k (b ∷ bs)))
  unfolding process send
  send_round b bs h =
      if_false _ _ _ (nonzero (length bs)) ∙ if_false _ _ _ (le→ltb (suc (length bs)) k h)

module _ (kernel : ℕ → ℕ → ℕ) (takes : TakesSome kernel) where
  -- A connection that runs, with no empty buffer in its queue: when in each round the socket is
  -- ready and ::send takes at least one byte of those that it is given, `work` rounds are enough for
  -- the thread to send the rest of its buffer and all that is queued, in order, and then it waits.
  pub rounds-running :
      (n : ℕ) (q : List Buffer) (thread : Sender) (sock : TcpSocket)
      → work thread q ≤ n
      → IsActive thread
      → All IsNonempty q
      → rounds n kernel (running q thread sock)
        ≡ running [] at_pop (sent_to sock (in_flight thread ++ joined q))
  unfolding rounds
  rounds-running zero [] at_pop sock h a full =
      ap (λ (bytes : List ℕ). running [] at_pop (record sock { stream = bytes }))
        (sym (append-nil sock.stream))
  rounds-running zero (x ∷ q) at_pop sock h a full = absurd (omega (arith, h))
  rounds-running zero q at_test sock h a full = absurd (omega (arith, h))
  rounds-running zero q (sending buf) sock h a full = absurd (omega (arith, h))
  rounds-running n q ended sock h a full = absurd a
  rounds-running n q (terminated buf) sock h a full = absurd a
  rounds-running (suc n) q at_test sock h a full =
      ap (rounds n kernel) (test_round sock q (kernel n 0))
      ∙ rounds-running n q at_pop sock (omega (arith, h)) tt full
  rounds-running (suc n) [] at_pop sock h a full =
      ap (rounds n kernel) (wait_round sock [] (kernel n 0))
      ∙ rounds-running n [] at_pop sock (omega arith) tt tt
  rounds-running (suc n) ([] ∷ q) at_pop sock h a full = absurd (omega (arith, full.0))
  rounds-running (suc n) ((b ∷ bs) ∷ q) at_pop sock h a full =
      ap (rounds n kernel) (pop_round sock q (kernel n 0) b bs)
      ∙ rounds-running n q (sending (b ∷ bs)) sock (omega (arith, h)) tt full.1
  rounds-running (suc n) q (sending []) sock h a full =
      ap (rounds n kernel) (done_round sock q (kernel n 0))
      ∙ rounds-running n q at_test sock (omega (arith, h)) tt full
  rounds-running (suc n) q (sending (b ∷ bs)) sock h a full =
      let k = kernel n (suc (length bs)) in
      let (some_taken, fits) = takes n (suc (length bs)) (omega arith) in
      ap (rounds n kernel) (send_round sock q k b bs fits)
      ∙ rounds-running n q (sending (drop k (b ∷ bs))) (sent_to sock (take k (b ∷ bs)))
          (omega (arith, h, some_taken, length-drop k (b ∷ bs))) tt full
      ∙ ap (λ (bytes : List ℕ). running [] at_pop (record sock { stream = bytes }))
          (append_assoc sock.stream (take k (b ∷ bs)) (drop k (b ∷ bs) ++ joined q)
            ∙ ap (λ (l : List ℕ). sock.stream ++ l)
                (sym (append_assoc (take k (b ∷ bs)) (drop k (b ∷ bs)) (joined q))
                  ∙ ap (λ (l : List ℕ). l ++ joined q) (take-append-drop k (b ∷ bs))))
