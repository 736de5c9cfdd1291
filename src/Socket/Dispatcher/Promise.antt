-- ===== src/Socket/Dispatcher/Promise.antt =====
-- What TCPDataDispatcher promises its clients, and what its operations on the clients keep of it.
use odr_source_companion.Base.{
  ℕ, zero, suc, ◌≤◌, ltb, false, Bool-cases, inl, inr, List, [], ◌∷◌, ◌++◌, map, length, joined,
  append-nil, append_assoc, Option, ◌≡◌, refl, sym, subst, arith,
}
use mathlib.Core.List.{Sublistᴰ}
use odr_source_companion.Socket.{TcpSocket, Polled}
use odr_source_companion.Socket.Connection.{Buffer, TcpConnection}
use odr_source_companion.Socket.Connection
use odr_source_companion.Socket.Connection.Stream.{
  Delivers, push-Delivers, process-Delivers, new-Delivers,
}
use odr_source_companion.Socket.Dispatcher.{
  TcpDataDispatcher, push_to, remove_if, push_each, connect, send_at,
}
use odr_source_companion.Socket.Dispatcher.Preroll.{last_of}

-- The promise: the buffers that a new client starts with, and the bytes that are due to each client.
pub record Subscribers : Type 0 where
  pub recent : List Buffer
  pub due : List (List ℕ)

abbrev pub published : ℕ → Subscribers → Buffer → Subscribers
published n s buf = record {
  recent = last_of n (s.recent ++ buf ∷ []);
  due = map (λ bytes. bytes ++ buf) s.due;
}

-- What an observer of the dispatcher sees of a step: a write, a client that is accepted, the removal
-- of slow clients, or nothing.
pub data Event : Type 0 where
  wrote : Buffer → Event
  accepted removed quiet : Event

-- What each event means for the subscribers; `n` is the number of buffers that a new client starts
-- with. Which clients a removal takes is left open here.
pub data SpecStep (n : ℕ) : Subscribers → Event → Subscribers → Type 0 where
  publish : {s : Subscribers} (buf : Buffer) → SpecStep n s (wrote buf) (published n s buf)
  subscribe : {s : Subscribers} → SpecStep n s accepted (record s { due = joined s.recent ∷ s.due })
  unsubscribe :
      {s : Subscribers} {due : List (List ℕ)}
      → Sublistᴰ due s.due
      → SpecStep n s removed (record s { due = due })
  stay : {s : Subscribers} → SpecStep n s quiet s

abbrev pub AllDeliver : List TcpConnection → List (List ℕ) → Type 0
AllDeliver [] [] = Unit
AllDeliver (c ∷ cs) (d ∷ ds) = Delivers c d × AllDeliver cs ds
AllDeliver [] (d ∷ ds) = ⊥
AllDeliver (c ∷ cs) [] = ⊥

pub record Implements (n : ℕ) (self : TcpDataDispatcher) (s : Subscribers) : Type 0 where
  pub configured : self.m_buffers_to_preroll ≡ n
  pub preroll : self.m_preroll_queue ≡ s.recent
  pub bounded : length s.recent ≤ n
  pub clients : AllDeliver self.m_connections s.due

pub map_push-AllDeliver :
    (buf : Buffer) (cs : List TcpConnection) (ds : List (List ℕ))
    → AllDeliver cs ds
    → AllDeliver (map (push_to buf) cs) (map (λ bytes. bytes ++ buf) ds)
unfolding push_to
map_push-AllDeliver buf [] [] h = tt
map_push-AllDeliver buf (c ∷ cs) (d ∷ ds) h =
    (push-Delivers c d buf h.0, map_push-AllDeliver buf cs ds h.1)
map_push-AllDeliver buf [] (d ∷ ds) h = absurd h
map_push-AllDeliver buf (c ∷ cs) [] h = absurd h

-- The clients that stay, and what is due to them.
pub remove_if-AllDeliver :
    (max : ℕ) (cs : List TcpConnection) (ds : List (List ℕ))
    → AllDeliver cs ds
    → (ds' : List (List ℕ)) × Sublistᴰ ds' ds × AllDeliver (remove_if max cs) ds'
unfolding remove_if
remove_if-AllDeliver max [] [] h = ([], Sublistᴰ.slnil, tt)
remove_if-AllDeliver max (c ∷ cs) (d ∷ ds) h =
    let (ds', sub, all) = remove_if-AllDeliver max cs ds h.1 in
    elim (Bool-cases (ltb max (length c.queue.the_queue))) [
      | inl slow ↦ (ds', Sublistᴰ.cons sub, rw slow all)
      | inr fast ↦ (d ∷ ds', Sublistᴰ.cons-cons refl sub, rw fast (h.0, all))
    ]
remove_if-AllDeliver max [] (d ∷ ds) h = absurd h
remove_if-AllDeliver max (c ∷ cs) [] h = absurd h

pub send_at-AllDeliver :
    (i : ℕ) (retval : Polled) (ret : Option ℕ) (cs : List TcpConnection) (ds : List (List ℕ))
    → AllDeliver cs ds
    → AllDeliver (send_at i retval ret cs) ds
unfolding send_at
send_at-AllDeliver i retval ret [] [] h = h
send_at-AllDeliver zero retval ret (c ∷ cs) (d ∷ ds) h = (process-Delivers c d h.0 retval ret, h.1)
send_at-AllDeliver (suc i) retval ret (c ∷ cs) (d ∷ ds) h =
    (h.0, send_at-AllDeliver i retval ret cs ds h.1)
send_at-AllDeliver i retval ret [] (d ∷ ds) h = absurd h
send_at-AllDeliver i retval ret (c ∷ cs) [] h = absurd h

push_each-Delivers :
    (bufs : List Buffer) (c : TcpConnection) (due : List ℕ)
    → Delivers c due
    → Delivers (push_each c bufs) (due ++ joined bufs)
unfolding push_each push_to
push_each-Delivers [] c due d = subst (Delivers c) (sym (append-nil due)) d
push_each-Delivers (buf ∷ bufs) c due d =
    subst (Delivers (push_each (push_to buf c) bufs)) (append_assoc due buf (joined bufs))
      (push_each-Delivers bufs _ (due ++ buf) (push-Delivers c due buf d))

no_room : (bufs : List Buffer) (n m : ℕ) → length bufs ≤ n → m ≡ n → ltb 0 m ≡ false → bufs ≡ []
no_room [] n m h e f = refl
no_room (buf ∷ bufs) n m h e f = absurd (ground arith)

-- A new client is due the preroll.
pub connect-Delivers :
    (n : ℕ) (self : TcpDataDispatcher) (s : Subscribers) (sock : TcpSocket)
    → Implements n self s
    → sock.stream ≡ []
    → Delivers (connect self sock) (joined s.recent)
unfolding connect
connect-Delivers n self s sock h e = elim (Bool-cases (ltb 0 self.m_buffers_to_preroll)) [
  | inl keeps ↦ rw keeps (
      subst
        (λ (bufs : List Buffer).
          Delivers (push_each (Connection.new sock) self.m_preroll_queue) (joined bufs))
        h.preroll
        (push_each-Delivers self.m_preroll_queue (Connection.new sock) [] (new-Delivers sock e)))
  | inr none_kept ↦
      let empty : s.recent ≡ [] =
        no_room s.recent n self.m_buffers_to_preroll h.bounded h.configured none_kept in
      rw none_kept (
        subst (λ (bufs : List Buffer). Delivers (Connection.new sock) (joined bufs)) (sym empty)
          (new-Delivers sock e))
]
