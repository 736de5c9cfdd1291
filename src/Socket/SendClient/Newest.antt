-- ===== src/Socket/SendClient/Newest.antt =====
-- What `sendall` of TCPSendClient keeps queued.
use odr_source_companion.Base.{
  ℕ, suc, ◌-◌, ◌≤◌, lt→ltb, le→ltb, if◌then◌else◌, if_true, if_false, Bool, true, false, List, [],
  ◌∷◌, ◌++◌, length, length-append, drop, Option, none, some, ◌≡◌, refl, sym, ap, ◌∙◌, arith,
}
use native.Mathlib.Decide.{dec_lt}
use odr_source_companion.ThreadsafeQueue.{size, push, try_pop}
use odr_source_companion.Socket.Connection.{Buffer}
use odr_source_companion.Socket.Dispatcher.Preroll.{last_of}
use odr_source_companion.Socket.SendClient.{TcpSendClient, max_queue_size, discard_oldest, sendall}

then_discard :
    (b : Bool) (x y : TcpSendClient)
    → discard_oldest x ≡ y
    → elim (if b then some x else none) as (λ o. Option TcpSendClient) [
      | none ↦ none
      | some pushed ↦ some (discard_oldest pushed)
    ]
      ≡ (if b then some y else none)
then_discard true x y e = ap some e
then_discard false x y e = refl

with_queue : TcpSendClient → List Buffer → TcpSendClient
with_queue self q = record self {
  m_queue = record { the_queue = q; wakeup_requested = self.m_queue.wakeup_requested };
}

discard_lem :
    (self : TcpSendClient) (q : List Buffer)
    → length q ≤ suc max_queue_size
    → discard_oldest (with_queue self q) ≡ with_queue self (last_of max_queue_size q)
unfolding discard_oldest with_queue size try_pop
discard_lem self [] h = refl
discard_lem self (x ∷ q) h = elim (dec_lt max_queue_size (length (x ∷ q))) [
  | yes long ↦
      let one : length (x ∷ q) - max_queue_size ≡ 1 = omega (arith, h, long) in
      if_true _ _ _ (lt→ltb max_queue_size (length (x ∷ q)) long)
      ∙ ap (λ (k : ℕ). with_queue self (drop k (x ∷ q))) (sym one)
  | no short ↦
      let all : length (x ∷ q) - max_queue_size ≡ 0 = omega (arith, short) in
      if_false _ _ _ (le→ltb max_queue_size (length (x ∷ q)) (omega (arith, short)))
      ∙ ap (λ (k : ℕ). with_queue self (drop k (x ∷ q))) (sym all)
]

-- On a client that runs, with at most 512 buffers in its queue, `sendall` puts the buffer at the end
-- and keeps the newest 512, in order, so that the bound holds again; it never waits for the
-- connection. On a client whose thread has stopped it throws.
pub sendall_lem :
    (self : TcpSendClient) (buffer : Buffer)
    → length self.m_queue.the_queue ≤ max_queue_size
    → sendall self buffer ≡ (
        if self.m_running
        then some (record self {
          m_queue = record {
            the_queue = last_of max_queue_size (self.m_queue.the_queue ++ buffer ∷ []);
            wakeup_requested = self.m_queue.wakeup_requested;
          };
        })
        else none)
unfolding sendall with_queue push
sendall_lem self buffer h =
    let q = self.m_queue.the_queue in
    then_discard self.m_running _ _
      (discard_lem self (q ++ buffer ∷ []) (omega (arith, h, length-append q (buffer ∷ []))))
