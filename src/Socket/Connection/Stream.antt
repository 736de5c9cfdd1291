-- ===== src/Socket/Connection/Stream.antt =====
-- What a client of TCPConnection has received, against what was put into its queue.
use odr_source_companion.Base.{
  ℕ, ltb, ◌==◌, if_true, if_false, Bool, true, false, Bool-cases, inl, inr, List, [], ◌∷◌, ◌++◌,
  length, take, drop, joined, take-append-drop, append_assoc, append-nil, Option, none, some, ◌≡◌,
  refl, sym, ap, ◌∙◌, subst,
}
use odr_source_companion.ThreadsafeQueue.{ThreadsafeQueue, Popping, push, wait_and_pop}
use odr_source_companion.ThreadsafeQueue.Order.{
  Pops, throws_wakeup, waits_for_more, takes_oldest, wait_and_pop-Pops,
}
use odr_source_companion.Socket.{Polled, send}
use odr_source_companion.Socket.SendAll.{no_bytes}
use odr_source_companion.Socket.Connection.{
  Buffer, Sender, at_test, at_pop, sending, ended, terminated, TcpConnection, start_sending, pop,
  count_sent, send_round, process, process_at, new,
}
use odr_source_companion.Socket.{TcpSocket}

-- The bytes that the thread holds.
abbrev pub in_flight : Sender → List ℕ
in_flight (sending buf) = buf
in_flight (terminated buf) = buf
in_flight at_test = []
in_flight at_pop = []
in_flight ended = []

abbrev pub queued : ThreadsafeQueue Buffer → List ℕ
queued q = joined q.the_queue

-- What ::send has taken is a beginning of `due`; while the connection runs, the rest of `due` is
-- what the thread holds and what is queued.
pub record Delivers (c : TcpConnection) (due : List ℕ) : Type 0 where
  pub rest : List ℕ
  pub in_order : c.m_sock.stream ++ rest ≡ due
  pub complete : c.m_running ≡ true → rest ≡ in_flight c.m_sender_thread ++ queued c.queue

pub joined-append : (ls ms : List (List ℕ)) → joined (ls ++ ms) ≡ joined ls ++ joined ms
joined-append [] ms = refl
joined-append (l ∷ ls) ms =
    ap (λ (t : List ℕ). l ++ t) (joined-append ls ms) ∙ sym (append_assoc l (joined ls) (joined ms))

pub push-Delivers :
    (c : TcpConnection) (due buf : List ℕ)
    → Delivers c due
    → Delivers (record c { queue = (push c.queue buf 0).1 }) (due ++ buf)
unfolding push
push-Delivers c due buf d = record {
  rest = d.rest ++ buf;
  in_order =
      sym (append_assoc c.m_sock.stream d.rest buf) ∙ ap (λ (l : List ℕ). l ++ buf) d.in_order;
  complete = λ run.
      ap (λ (l : List ℕ). l ++ buf) (d.complete run)
      ∙ append_assoc (in_flight c.m_sender_thread) (queued c.queue) buf
      ∙ ap (λ (l : List ℕ). in_flight c.m_sender_thread ++ l)
          (ap (λ (l : List ℕ). queued c.queue ++ l) (sym (append-nil buf))
            ∙ sym (joined-append c.queue.the_queue (buf ∷ [])));
}

module _ (c : TcpConnection) (due : List ℕ) (d : Delivers c due) where
  -- A change that leaves the socket alone, and what is in flight and queued too.
  moved_lem :
      (queue : ThreadsafeQueue Buffer) (running : Bool) (thread : Sender)
      → (running ≡ true → c.m_running ≡ true)
      → (running ≡ true
          → in_flight c.m_sender_thread ++ queued c.queue ≡ in_flight thread ++ queued queue)
      → Delivers
          (record {
            queue = queue;
            m_running = running;
            m_sender_thread = thread;
            m_sock = c.m_sock;
          })
          due
  moved_lem queue running thread h e = record {
    rest = d.rest;
    in_order = d.in_order;
    complete = λ run. d.complete (h run) ∙ e run;
  }

  start_sending-Delivers :
      (buf : Buffer) (q : ThreadsafeQueue Buffer)
      → in_flight c.m_sender_thread ≡ []
      → c.queue.the_queue ≡ buf ∷ q.the_queue
      → Delivers (start_sending c buf q) due
  unfolding start_sending
  start_sending-Delivers buf q none_held e = elim (Bool-cases (length buf == 0)) [
    | inl empty ↦ rw empty (moved_lem q false ended (λ h. cc) (λ h. cc))
    | inr more ↦ rw more (
        moved_lem q c.m_running (sending buf) (λ h. h)
          (λ h. ap (λ (l : List ℕ). l ++ queued c.queue) none_held ∙ ap joined e))
  ]

  at_pop-Delivers :
      (p : Popping Buffer)
      → c.m_sender_thread ≡ at_pop
      → Pops c.queue 0 p
      → wait_and_pop c.queue 1 ≡ p
      → Delivers (pop c) due
  unfolding pop
  at_pop-Delivers p at (throws_wakeup w) e =
      rw (e, pop)
        (moved_lem _ c.m_running (terminated []) (λ h. h)
          (λ h. ap (λ (t : Sender). in_flight t ++ queued c.queue) at))
  at_pop-Delivers p at (waits_for_more w l) e = rw (e, pop) d
  at_pop-Delivers p at (takes_oldest x xs w l q) e =
      rw (e, pop) (start_sending-Delivers x _ (ap in_flight at) q)

  count_sent-Delivers :
      (buf : List ℕ) (answer : Option ℕ)
      → c.m_sender_thread ≡ sending buf
      → c.m_running ≡ true
      → Delivers (count_sent c buf answer) due
  unfolding count_sent
  count_sent-Delivers buf none at run = moved_lem c.queue false at_test (λ h. cc) (λ h. cc)
  count_sent-Delivers buf (some sent) at run = elim (Bool-cases (ltb (length buf) sent)) [
    | inl bad ↦ rw bad (
        moved_lem c.queue c.m_running (terminated buf) (λ h. h)
          (λ h. ap (λ (t : Sender). in_flight t ++ queued c.queue) at))
    | inr fits ↦ rw fits (record {
      rest = drop sent buf ++ queued c.queue;
      in_order =
          append_assoc c.m_sock.stream (take sent buf) (drop sent buf ++ queued c.queue)
          ∙ ap (λ (l : List ℕ). c.m_sock.stream ++ l)
              (sym (append_assoc (take sent buf) (drop sent buf) (queued c.queue))
                ∙ ap (λ (l : List ℕ). l ++ queued c.queue) (take-append-drop sent buf)
                ∙ ap (λ (t : Sender). in_flight t ++ queued c.queue) (sym at)
                ∙ sym (d.complete run))
          ∙ d.in_order;
      complete = λ h. refl;
    })
  ]

  send_round-Delivers :
      (buf : List ℕ) (retval : Polled) (ret : Option ℕ)
      → c.m_sender_thread ≡ sending buf
      → Delivers (send_round c buf retval ret) due
  unfolding send_round
  send_round-Delivers buf retval ret at = elim (Bool-cases c.m_running) [
    | inl run ↦ elim (Bool-cases (length buf == 0)) [
      | inl done ↦
          rw (run, done)
            (moved_lem c.queue true at_test (λ h. run)
              (λ h.
                ap (λ (t : Sender). in_flight t ++ queued c.queue) at
                ∙ ap (λ (l : List ℕ). l ++ queued c.queue) (no_bytes buf done)))
      | inr more ↦
          subst (λ (x : TcpConnection). Delivers x due)
            (sym (if_true c.m_running _ _ run ∙ if_false (length buf == 0) _ _ more))
            (count_sent-Delivers buf (send 10 retval ret) at run)
    ]
    | inr stopped ↦ rw stopped (moved_lem c.queue false at_test (λ h. cc) (λ h. cc))
  ]

  process_at-Delivers :
      (thread : Sender) (retval : Polled) (ret : Option ℕ)
      → c.m_sender_thread ≡ thread
      → Delivers (process_at thread c retval ret) due
  unfolding process_at
  process_at-Delivers at_test retval ret at = elim (Bool-cases c.m_running) [
    | inl run ↦ rw run (
        moved_lem c.queue true at_pop (λ h. run)
          (λ h. ap (λ (t : Sender). in_flight t ++ queued c.queue) at))
    | inr stopped ↦ rw stopped (moved_lem c.queue false ended (λ h. cc) (λ h. cc))
  ]
  process_at-Delivers at_pop retval ret at =
      at_pop-Delivers (wait_and_pop c.queue 1) at (wait_and_pop-Pops c.queue 0) refl
  process_at-Delivers (sending buf) retval ret at = send_round-Delivers buf retval ret at
  process_at-Delivers ended retval ret at = d
  process_at-Delivers (terminated buf) retval ret at = d

  -- A round of the sender thread, whatever poll and ::send return in it, keeps what a client has
  -- received a beginning of what is due to it, with nothing lost behind it.
  pub process-Delivers : (retval : Polled) (ret : Option ℕ) → Delivers (process c retval ret) due
  unfolding process
  process-Delivers retval ret = process_at-Delivers c.m_sender_thread retval ret refl

pub new-Delivers : (sock : TcpSocket) → sock.stream ≡ [] → Delivers (new sock) []
unfolding new
new-Delivers sock e = record {
  rest = [];
  in_order = append-nil sock.stream ∙ e;
  complete = λ run. refl;
}
