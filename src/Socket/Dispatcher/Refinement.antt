-- ===== src/Socket/Dispatcher/Refinement.antt =====
-- The threads of TCPDataDispatcher keep to its promise.
use odr_source_companion.Base.{
  ℕ, if◌then◌else◌, if_true, if_false, Bool, true, false, Bool-cases, inl, inr, ◌⊎◌, List, [], ◌∷◌,
  ◌++◌, map, joined, Option, none, some, ◌≡◌, refl, sym, ap, ◌∙◌, subst, arith,
}
use odr_source_companion.Socket.{TcpSocket, Polled, valid}
use odr_source_companion.Socket.Connection.{Buffer}
use odr_source_companion.Socket.Dispatcher.{
  TcpDataDispatcher, new, start, keep_preroll, push_to, write_queues, remove_slow, process, send_at,
}
use odr_source_companion.Socket.Dispatcher.Preroll.{length-last_of, keep_preroll_lem}
use odr_source_companion.Socket.Dispatcher.Promise.{
  Subscribers, Event, wrote, accepted, removed, quiet, published, SpecStep, publish, subscribe,
  unsubscribe, stay, Implements, map_push-AllDeliver, remove_if-AllDeliver, send_at-AllDeliver,
  connect-Delivers,
}

-- A step of one of the threads, with what is seen of it. A socket that `accept` returns has not sent
-- anything; it is a client if the dispatcher runs and the socket is valid.
pub data Step : TcpDataDispatcher → Event → TcpDataDispatcher → Type 0 where
  writes :
      {self self' : TcpDataDispatcher} (buf : Buffer)
      → write_queues self buf ≡ some self'
      → Step self (wrote buf) self'
  removes : {self : TcpDataDispatcher} → Step self removed (remove_slow self)
  listens :
      {self : TcpDataDispatcher} (sock : TcpSocket)
      → sock.stream ≡ []
      → self.m_running ≡ true
      → valid sock ≡ true
      → Step self accepted (process self (some sock))
  listens_in_vain :
      {self : TcpDataDispatcher} (sock : TcpSocket)
      → (self.m_running ≡ false) ⊎ (valid sock ≡ false)
      → Step self quiet (process self (some sock))
  listen_fails : {self : TcpDataDispatcher} → Step self quiet (process self none)
  sends :
      {self : TcpDataDispatcher} (i : ℕ) (retval : Polled) (ret : Option ℕ)
      → Step self quiet (record self { m_connections = send_at i retval ret self.m_connections })

only_some {ℓ} : {A : Type ℓ} (b : Bool) (x y : A) → (if b then some x else none) ≡ some y → x ≡ y
only_some true x y e = cc
only_some false x y e = cc

module _ (n : ℕ) (self : TcpDataDispatcher) (s : Subscribers) (h : Implements n self s) where
  stays : (b : Bool) → Implements n (record self { m_running = b }) s
  stays b = record {
    configured = h.configured;
    preroll = h.preroll;
    bounded = h.bounded;
    clients = h.clients;
  }

  written-Implements :
      (buf : Buffer) (b : Bool)
      → Implements n
          (record self {
            m_running = b;
            m_preroll_queue = keep_preroll self.m_buffers_to_preroll self.m_preroll_queue buf;
            m_connections = map (push_to buf) self.m_connections;
          })
          (published n s buf)
  written-Implements buf b = record {
    configured = h.configured;
    preroll =
        ap (λ (k : ℕ). keep_preroll k self.m_preroll_queue buf) h.configured
        ∙ ap (λ (q : List Buffer). keep_preroll n q buf) h.preroll
        ∙ keep_preroll_lem n s.recent buf h.bounded;
    bounded = length-last_of n (s.recent ++ buf ∷ []);
    clients = map_push-AllDeliver buf self.m_connections s.due h.clients;
  }

  removed-Implements :
      (s' : Subscribers) × SpecStep n s removed s' × Implements n (remove_slow self) s'
  unfolding remove_slow
  removed-Implements =
      let (due, sub, all) =
        remove_if-AllDeliver self.m_max_queue_size self.m_connections s.due h.clients in
      (
        record s { due = due },
        unsubscribe sub,
        record {
          configured = h.configured;
          preroll = h.preroll;
          bounded = h.bounded;
          clients = all;
        },
      )

  accepted-Implements :
      (sock : TcpSocket)
      → sock.stream ≡ []
      → self.m_running ≡ true
      → valid sock ≡ true
      → Implements n (process self (some sock)) (record s { due = joined s.recent ∷ s.due })
  unfolding process
  accepted-Implements sock e runs good =
      subst (λ (d : TcpDataDispatcher). Implements n d (record s { due = joined s.recent ∷ s.due }))
        (sym (if_true self.m_running _ _ runs ∙ if_true (valid sock) _ _ good))
        (record {
          configured = h.configured;
          preroll = h.preroll;
          bounded = h.bounded;
          clients = (connect-Delivers n self s sock h e, h.clients);
        })

  rejected-Implements :
      (sock : TcpSocket)
      → (self.m_running ≡ false) ⊎ (valid sock ≡ false)
      → Implements n (process self (some sock)) s
  unfolding process
  rejected-Implements sock (inl stopped) =
      subst (λ (d : TcpDataDispatcher). Implements n d s)
        (sym (if_false self.m_running _ _ stopped)) h
  rejected-Implements sock (inr invalid) = elim (Bool-cases self.m_running) [
    | inl runs ↦
        subst (λ (d : TcpDataDispatcher). Implements n d s)
          (sym (if_true self.m_running _ _ runs ∙ if_false (valid sock) _ _ invalid)) h
    | inr stopped ↦
        subst (λ (d : TcpDataDispatcher). Implements n d s)
          (sym (if_false self.m_running _ _ stopped)) h
  ]

  failed-Implements : Implements n (process self none) s
  unfolding process
  failed-Implements = elim (Bool-cases self.m_running) [
    | inl runs ↦
        subst (λ (d : TcpDataDispatcher). Implements n d s) (sym (if_true self.m_running _ _ runs))
          (stays false)
    | inr stopped ↦
        subst (λ (d : TcpDataDispatcher). Implements n d s)
          (sym (if_false self.m_running _ _ stopped)) h
  ]

  -- One step of a thread is one step of the promise, for the same event.
  Step-SpecStep :
      {event : Event} {self' : TcpDataDispatcher}
      → Step self event self'
      → (s' : Subscribers) × SpecStep n s event s' × Implements n self' s'
  unfolding write_queues
  Step-SpecStep (writes {self' = self'} buf e) = (
    published n s buf,
    publish buf,
    subst (λ (d : TcpDataDispatcher). Implements n d (published n s buf))
        (only_some self.m_running _ self' e) (written-Implements buf self.m_running),
  )
  Step-SpecStep removes = removed-Implements
  Step-SpecStep (listens sock e runs good) =
      (record s { due = joined s.recent ∷ s.due }, subscribe, accepted-Implements sock e runs good)
  Step-SpecStep (listens_in_vain sock e) = (s, stay, rejected-Implements sock e)
  Step-SpecStep listen_fails = (s, stay, failed-Implements)
  Step-SpecStep (sends i retval ret) = (
    s,
    stay,
    record {
      configured = h.configured;
      preroll = h.preroll;
      bounded = h.bounded;
      clients = send_at-AllDeliver i retval ret self.m_connections s.due h.clients;
    },
  )

-- Steps of the threads, one after the other, with what is seen of them.
pub data Run : TcpDataDispatcher → List Event → TcpDataDispatcher → Type 0 where
  stop : {self : TcpDataDispatcher} → Run self [] self
  step :
      {self next last : TcpDataDispatcher} {event : Event} {events : List Event}
      → Step self event next
      → Run next events last
      → Run self (event ∷ events) last

pub data SpecRun (n : ℕ) : Subscribers → List Event → Subscribers → Type 0 where
  spec_stop : {s : Subscribers} → SpecRun n s [] s
  spec_step :
      {s next last : Subscribers} {event : Event} {events : List Event}
      → SpecStep n s event next
      → SpecRun n next events last
      → SpecRun n s (event ∷ events) last

Run-from :
    (n : ℕ) {self last : TcpDataDispatcher} {events : List Event} (s : Subscribers)
    → Implements n self s
    → Run self events last
    → (s' : Subscribers) × SpecRun n s events s' × Implements n last s'
Run-from n s h stop = (s, spec_stop, h)
Run-from n {self} s h (step st r) =
    let (next, one, h') = Step-SpecStep n self s h st in
    let (last, more, h'') = Run-from n next h' r in (last, spec_step one more, h'')

-- From a dispatcher that has just been started on, in every interleaving of the producer's writes,
-- the removals of slow clients, the listener's rounds and the rounds of the sender threads, and
-- whatever accept, poll and ::send return, the dispatcher implements its promise for the same writes,
-- accepted clients and removals in the same order: a client is due the last `buffers_to_preroll`
-- buffers that were written before it came, and every buffer written since; its socket has taken a
-- beginning of these bytes, in order, and what is missing is in its thread or its queue as long as
-- the connection runs. The promise leaves open which clients a removal takes.
pub Run-SpecRun :
    (max_queue_size buffers_to_preroll : ℕ) {events : List Event} {last : TcpDataDispatcher}
    → Run (start (new max_queue_size buffers_to_preroll)) events last
    → (s : Subscribers) × SpecRun buffers_to_preroll (record { recent = []; due = [] }) events s
      × Implements buffers_to_preroll last s
unfolding new start
Run-SpecRun max_queue_size buffers_to_preroll r =
    Run-from buffers_to_preroll (record { recent = []; due = [] })
      (record { configured = refl; preroll = refl; bounded = omega arith; clients = tt }) r
