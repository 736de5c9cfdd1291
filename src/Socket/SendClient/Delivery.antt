-- ===== src/Socket/SendClient/Delivery.antt =====
-- What the thread of TCPSendClient puts on the wire.
use odr_source_companion.Base.{
  ℕ, zero, suc, ◌*◌, ◌≤◌, ◌<◌, ◌==◌, Bool, true, false, Bool-cases, inl, inr, List, [], ◌∷◌, ◌++◌,
  length, length-drop, take, drop, joined, take-append-drop, append_assoc, append-nil, Option, none,
  some, ◌≡◌, ◌⊎◌, refl, sym, ap, ◌∙◌, subst, arith,
}
use odr_source_companion.ThreadsafeQueue.{ThreadsafeQueue, popped, wait_and_pop}
use odr_source_companion.ThreadsafeQueue.Order.{wait_and_pop-front}
use odr_source_companion.Socket.{
  TcpSocket, new_socket, SendResult, all_sent, send_failed, still_sending,
}
use odr_source_companion.Socket
use odr_source_companion.Socket.SendAll.{Takes, Sent, sendall-Sent, no_bytes, some_bytes}
use odr_source_companion.Socket.Connection.{Buffer}
use odr_source_companion.Socket.SendClient.{
  TcpSendClient, ClientThread, at_test, at_pop, after_sendall, pop_and_send, process,
}

-- A client that runs.
abbrev pub running : Bool → List Buffer → ClientThread → TcpSocket → TcpSendClient
running connected q thread sock = record {
  m_is_connected = connected;
  m_sock = sock;
  m_queue = record { the_queue = q; wakeup_requested = false };
  m_running = true;
  m_sender_thread = thread;
}

abbrev pub sent_to : TcpSocket → List ℕ → TcpSocket
sent_to sock bytes = record sock { stream = sock.stream ++ bytes }

pop_round :
    (c : TcpSendClient) (buf : Buffer) (q : ThreadsafeQueue Buffer) (kernel : ℕ → Option ℕ)
    → wait_and_pop c.m_queue 1 ≡ popped buf q
    → pop_and_send c kernel ≡ after_sendall c q (Socket.sendall (length buf) kernel buf [])
unfolding pop_and_send
pop_round c buf q kernel e = rw (e, pop_and_send) refl

module _ (sock : TcpSocket) (buf : Buffer) (q : List Buffer) where
  -- What is left when the thread has popped `buf`: the socket has taken all of it, or the connection
  -- is given up.
  abbrev pub SentOrLost : TcpSendClient → Type 0
  SentOrLost c =
      (c ≡ running true q at_test (sent_to sock buf)) ⊎ (c ≡ running false q at_test new_socket)

  after_sendall-SentOrLost :
      (result : SendResult)
      → Sent buf result
      → SentOrLost (
          after_sendall
            (running true (buf ∷ q) at_pop sock)
            (record { the_queue = q; wakeup_requested = false })
            result)
  unfolding after_sendall
  after_sendall-SentOrLost (all_sent taken) h =
      inl (ap (λ (bytes : List ℕ). running true q at_test (sent_to sock bytes)) h)
  after_sendall-SentOrLost (send_failed taken) h = inr refl
  after_sendall-SentOrLost (still_sending taken) h = absurd h

  -- A connected client whose thread pops: where each ::send takes at least one byte of those that it
  -- is given, or fails, the round ends, and the oldest buffer has left the queue. Either its bytes
  -- are on the wire behind what was there, or the client is no longer connected; the buffer is not
  -- put back, so that a failure loses it and no other.
  pub process-SentOrLost :
      (kernel : ℕ → Option ℕ) (connected : Option TcpSocket)
      → Takes kernel
      → SentOrLost (process (running true (buf ∷ q) at_pop sock) connected kernel)
  unfolding process
  process-SentOrLost kernel connected h =
      subst SentOrLost
        (sym (
          pop_round (running true (buf ∷ q) at_pop sock) buf
            (record { the_queue = q; wakeup_requested = false }) kernel (wait_and_pop-front buf q)))
        (after_sendall-SentOrLost (Socket.sendall (length buf) kernel buf [])
          (sendall-Sent kernel buf h))

-- ::send always takes at least one byte of those that it is given, and no more.
abbrev pub Answers : (ℕ → Option ℕ) → Type 0
Answers kernel =
    (asked : ℕ) → 0 < asked → (sent : ℕ) × (kernel asked ≡ some sent) × (0 < sent) × (sent ≤ asked)

sendall_all :
    (calls : ℕ) (kernel : ℕ → Option ℕ) (buf taken : List ℕ)
    → Answers kernel
    → length buf ≤ calls
    → Socket.sendall calls kernel buf taken ≡ all_sent (taken ++ buf)
unfolding Socket.sendall
sendall_all zero kernel [] taken h enough = ap all_sent (sym (append-nil taken))
sendall_all zero kernel (b ∷ buf) taken h enough = absurd (omega (arith, enough))
sendall_all (suc calls) kernel buf taken h enough = elim (Bool-cases (length buf == 0)) [
  | inl e ↦
      rw (e, Socket.sendall)
        (ap all_sent (sym (ap (λ (l : List ℕ). taken ++ l) (no_bytes buf e) ∙ append-nil taken)))
  | inr e ↦
      let (sent, f, some_taken, fits) = h (length buf) (some_bytes (length buf) e) in
      rw (e, f, Socket.sendall)
        (sendall_all calls kernel (drop sent buf) (taken ++ take sent buf) h
            (omega (arith, length-drop sent buf, enough, some_taken, some_bytes (length buf) e))
          ∙ ap all_sent (
              append_assoc taken (take sent buf) (drop sent buf)
              ∙ ap (λ (l : List ℕ). taken ++ l) (take-append-drop sent buf)))
]

-- `n` rounds of the thread, without a new connection.
unfoldable pub rounds : ℕ → (ℕ → Option ℕ) → TcpSendClient → TcpSendClient
rounds zero kernel c = c
rounds (suc n) kernel c = rounds n kernel (process c none kernel)

two_rounds :
    (kernel : ℕ → Option ℕ) (sock : TcpSocket) (buf : Buffer) (q : List Buffer)
    → Answers kernel
    → process (process (running true (buf ∷ q) at_test sock) none kernel) none kernel
      ≡ running true q at_test (sent_to sock buf)
unfolding process after_sendall
two_rounds kernel sock buf q h =
    pop_round (running true (buf ∷ q) at_pop sock) buf
      (record { the_queue = q; wakeup_requested = false }) kernel (wait_and_pop-front buf q)
    ∙ ap
        (after_sendall (running true (buf ∷ q) at_pop sock)
          (record { the_queue = q; wakeup_requested = false }))
        (sendall_all (length buf) kernel buf [] h
          (let e : length buf ≤ length buf = omega arith in e))

-- A connected client that runs: as long as ::send takes at least one byte of those that it is given,
-- two rounds for each queued buffer are enough to send all of them, in order, and the connection
-- stays.
pub rounds-joined :
    (kernel : ℕ → Option ℕ) (q : List Buffer) (sock : TcpSocket)
    → Answers kernel
    → rounds (length q * 2) kernel (running true q at_test sock)
      ≡ running true [] at_test (sent_to sock (joined q))
unfolding rounds
rounds-joined kernel [] sock h =
    ap (λ (bytes : List ℕ). running true [] at_test (record sock { stream = bytes }))
      (sym (append-nil sock.stream))
rounds-joined kernel (buf ∷ q) sock h =
    ap (λ (n : ℕ). rounds n kernel (running true (buf ∷ q) at_test sock))
      (let e : suc (length q) * 2 ≡ suc (suc (length q * 2)) = omega arith in e)
    ∙ ap (rounds (length q * 2) kernel) (two_rounds kernel sock buf q h)
    ∙ rounds-joined kernel q (sent_to sock buf) h
    ∙ ap (λ (bytes : List ℕ). running true [] at_test (record sock { stream = bytes }))
        (append_assoc sock.stream buf (joined q))
