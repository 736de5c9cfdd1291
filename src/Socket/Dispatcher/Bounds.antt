-- ===== src/Socket/Dispatcher/Bounds.antt =====
-- Which clients `write` of TCPDataDispatcher keeps, and how much it queues for them.
use odr_source_companion.Base.{
  ℕ, suc, ◌≤◌, ltb, lt→ltb, le→ltb, if◌then◌else◌, if_true, if_false, Bool, true, false, List, [],
  ◌∷◌, ◌++◌, length, length-append, map, ap₂, Option, none, some, ◌≡◌, refl, sym, ap, ap₂, ◌∙◌,
  arith,
}
use native.Mathlib.Decide.{dec_lt}
use odr_source_companion.Socket.Dispatcher.Preroll.{last_of, keep_preroll_lem}
use odr_source_companion.ThreadsafeQueue.{push, size}
use odr_source_companion.Socket.Connection.{Buffer, TcpConnection}
use odr_source_companion.Socket.Dispatcher.{
  TcpDataDispatcher, push_to, remove_if, remove_slow, write,
}

-- The clients with room for one more buffer, and the buffer at the end of their queues.
abbrev pub with_room : ℕ → Buffer → List TcpConnection → List TcpConnection
with_room max buf [] = []
with_room max buf (c ∷ cs) =
    let rest = with_room max buf cs in
    if ltb (length c.queue.the_queue) max
    then record c { queue = record (c.queue) { the_queue = c.queue.the_queue ++ buf ∷ [] } } ∷ rest
    else rest

remove_if-push :
    (max : ℕ) (buf : Buffer) (cs : List TcpConnection)
    → remove_if max (map (push_to buf) cs) ≡ with_room max buf cs
unfolding remove_if push_to push size
remove_if-push max buf [] = refl
remove_if-push max buf (c ∷ cs) =
    let q = c.queue.the_queue in
    let longer : length (q ++ buf ∷ []) ≡ suc (length q) =
      omega (arith, length-append q (buf ∷ [])) in
    let more = remove_if-push max buf cs in
    elim (dec_lt (length q) max) [
      | yes room ↦
          if_false _ _ _ (le→ltb max (length (q ++ buf ∷ [])) (omega (arith, longer, room)))
          ∙ ap (λ (l : List TcpConnection). push_to buf c ∷ l) more
          ∙ sym (if_true _ _ _ (lt→ltb (length q) max room))
      | no full ↦
          if_true _ _ _ (lt→ltb max (length (q ++ buf ∷ [])) (omega (arith, longer, full)))
          ∙ more
          ∙ sym (if_false _ _ _ (le→ltb (length q) max (omega (arith, full))))
    ]

then_remove :
    (b : Bool) (x y : TcpDataDispatcher)
    → remove_slow x ≡ y
    → elim (if b then some x else none) as (λ o. Option TcpDataDispatcher) [
      | none ↦ none
      | some written ↦ some (remove_slow written)
    ]
      ≡ (if b then some y else none)
then_remove true x y e = ap some e
then_remove false x y e = refl

-- `write` on a dispatcher that runs, with no more buffers in its preroll than configured, files the
-- buffer as the last of the preroll, of which the last `m_buffers_to_preroll` stay, and puts it at
-- the end of the queue of each client with fewer than `m_max_queue_size` buffers; exactly these
-- clients stay. On a dispatcher that does not run it throws.
pub write_lem :
    (self : TcpDataDispatcher) (buf : Buffer)
    → length self.m_preroll_queue ≤ self.m_buffers_to_preroll
    → write self buf ≡ (
        if self.m_running
        then some (record self {
          m_preroll_queue = last_of self.m_buffers_to_preroll (self.m_preroll_queue ++ buf ∷ []);
          m_connections = with_room self.m_max_queue_size buf self.m_connections;
        })
        else none)
unfolding write
write_lem self buf h = then_remove self.m_running _ _ (
    ap₂
      (λ (preroll : List Buffer) (clients : List TcpConnection). record self {
        m_preroll_queue = preroll;
        m_connections = clients;
      })
      (keep_preroll_lem self.m_buffers_to_preroll self.m_preroll_queue buf h)
      (remove_if-push self.m_max_queue_size buf self.m_connections))
