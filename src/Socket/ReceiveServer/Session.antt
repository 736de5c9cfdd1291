-- ===== src/Socket/ReceiveServer/Session.antt =====
-- What a session of TCPReceiveServer tells the reader.
use odr_source_companion.Base.{
  ℕ, suc, ◌≤◌, ◌<◌, ◌&&◌, Bool, true, false, inl, inr, List, [], ◌∷◌, ◌++◌, map, length, joined,
  append_assoc, append-nil, All, ◌≡◌, ◌⊎◌, refl, sym, ap, ap₂, ◌∙◌, subst, arith,
}
use odr_source_companion.ThreadsafeQueue.{push}
use odr_source_companion.Socket.{TcpSocket, Received, received, interrupted, timeout, error, valid}
use odr_source_companion.Socket.ReceiveServer.{
  TcpReceiveMessage, disconnected, bytes, TcpReceiveServer, push_message, session, max_num_timeouts,
}
use native.Mathlib.Decide.{dec_lt}
use odr_source_companion.Socket.ReceiveServer.Rounds.{
  data_session, timeout_session, last_timeout, error_session, end_session, interrupted_session,
}

-- What ::recv has read.
abbrev pub bytes_read : List Received → List ℕ
bytes_read [] = []
bytes_read (received buf ∷ rs) = buf ++ bytes_read rs
bytes_read (interrupted ∷ rs) = bytes_read rs
bytes_read (timeout ∷ rs) = bytes_read rs
bytes_read (error ∷ rs) = bytes_read rs

abbrev pub messages : TcpReceiveServer → List TcpReceiveMessage
messages self = self.m_queue.the_queue

-- The messages of a session on `rs` that were put behind `before`: blocks of data, none of them
-- empty, then at most one message that the client is gone. The blocks are a beginning of what was
-- read. While the session goes on they are all that was read, and no such message was sent.
pub record Transcript (before : List TcpReceiveMessage) (rs : List Received)
    (after : List TcpReceiveMessage) (goes : Bool) : Type 0 where
  pub blocks : List (List ℕ)
  pub ending : List TcpReceiveMessage
  pub rest : List ℕ
  pub queue : after ≡ before ++ (map bytes blocks ++ ending)
  pub full : All (λ buf. 0 < length buf) blocks
  pub in_order : joined blocks ++ rest ≡ bytes_read rs
  pub one_ending : (ending ≡ []) ⊎ (ending ≡ disconnected ∷ [])
  pub while_open : goes ≡ true → (ending ≡ []) × (rest ≡ [])

-- The session is over.
over :
    (before : List TcpReceiveMessage) (rs : List Received) (ending : List TcpReceiveMessage)
    → (ending ≡ []) ⊎ (ending ≡ disconnected ∷ [])
    → Transcript before rs (before ++ ending) false
over before rs ending one = record {
  blocks = [];
  ending = ending;
  rest = bytes_read rs;
  queue = refl;
  full = tt;
  in_order = refl;
  one_ending = one;
  while_open = λ h. cc;
}

-- A block in front of the rest of the session.
more_block :
    (before : List TcpReceiveMessage) (rs : List Received) (after : List TcpReceiveMessage)
    (goes : Bool) (b : ℕ) (buf : List ℕ)
    → Transcript (before ++ bytes (b ∷ buf) ∷ []) rs after goes
    → Transcript before (received (b ∷ buf) ∷ rs) after goes
more_block before rs after goes b buf t = record {
  blocks = (b ∷ buf) ∷ t.blocks;
  ending = t.ending;
  rest = t.rest;
  queue = t.queue ∙ append_assoc before (bytes (b ∷ buf) ∷ []) (map bytes t.blocks ++ t.ending);
  full = (omega arith, t.full);
  in_order =
      append_assoc (b ∷ buf) (joined t.blocks) t.rest
      ∙ ap (λ (l : List ℕ). (b ∷ buf) ++ l) t.in_order;
  one_ending = t.one_ending;
  while_open = t.while_open;
}

same_bytes :
    (before after : List TcpReceiveMessage) (rs : List Received) (goes : Bool)
    → Transcript before rs after goes
    → Transcript before (timeout ∷ rs) after goes
same_bytes before after rs goes t = record {
  blocks = t.blocks;
  ending = t.ending;
  rest = t.rest;
  queue = t.queue;
  full = t.full;
  in_order = t.in_order;
  one_ending = t.one_ending;
  while_open = t.while_open;
}

abbrev Told : List TcpReceiveMessage → List Received → TcpReceiveServer × Bool → Type 0
Told before rs result = Transcript before rs (messages result.0) result.1

gone :
    (self : TcpReceiveServer) (rs : List Received)
    → Told (messages self) rs (push_message self disconnected, false)
unfolding push_message push
gone self rs = over (messages self) rs (disconnected ∷ []) (inr refl)

left : (self : TcpReceiveServer) (rs : List Received) → Told (messages self) rs (self, false)
left self rs =
    subst (λ (after : List TcpReceiveMessage). Transcript (messages self) rs after false)
      (append-nil (messages self)) (over (messages self) rs [] (inl refl))

nothing_yet :
    (self : TcpReceiveServer) (sock : TcpSocket) (n : ℕ)
    → Told (messages self) [] (session self sock n [])
unfolding session
nothing_yet self sock n = record {
  blocks = [];
  ending = [];
  rest = [];
  queue = sym (append-nil (messages self));
  full = tt;
  in_order = refl;
  one_ending = inl refl;
  while_open = λ h. (refl, refl);
}

next_block :
    (self : TcpReceiveServer) (rs : List Received) (b : ℕ) (buf : List ℕ)
    (result : TcpReceiveServer × Bool)
    → Told (messages (push_message self (bytes (b ∷ buf)))) rs result
    → Told (messages self) (received (b ∷ buf) ∷ rs) result
unfolding push_message push
next_block self rs b buf result t = more_block (messages self) rs _ _ b buf t

-- A session that begins on a server that runs and an open socket, with at most ten timeouts
-- counted, tells the reader, whatever `recv` returns or throws, only what the client sent: blocks
-- that are not empty and are, in order, a beginning of the bytes read, all of them as long as the
-- session goes on, and behind them at most one Disconnected, and only when the session is over.
pub session-Transcript :
    (rs : List Received) (self : TcpReceiveServer) (sock : TcpSocket) (num_timeouts : ℕ)
    → self.m_running ≡ true
    → valid sock ≡ true
    → num_timeouts ≤ max_num_timeouts
    → Transcript
        (messages self)
        rs
        (messages (session self sock num_timeouts rs).0)
        (session self sock num_timeouts rs).1
unfolding push_message
session-Transcript [] self sock n run good h = nothing_yet self sock n
session-Transcript (received [] ∷ rs) self sock n run good h =
    subst (Told (messages self) (received [] ∷ rs))
      (sym (end_session self sock rs n (ap₂ ◌&&◌ run good))) (gone self (received [] ∷ rs))
session-Transcript (received (b ∷ buf) ∷ rs) self sock n run good h =
    subst (Told (messages self) (received (b ∷ buf) ∷ rs))
      (sym (data_session self sock rs n b buf (ap₂ ◌&&◌ run good) h))
      (next_block self rs b buf (session (push_message self (bytes (b ∷ buf))) sock n rs)
        (session-Transcript rs (push_message self (bytes (b ∷ buf))) sock n run good h))
session-Transcript (interrupted ∷ rs) self sock n run good h =
    subst (Told (messages self) (interrupted ∷ rs))
      (sym (interrupted_session self sock rs n (ap₂ ◌&&◌ run good))) (left self (interrupted ∷ rs))
session-Transcript (timeout ∷ rs) self sock n run good h = elim (dec_lt n max_num_timeouts) [
  | yes more ↦
      subst (Told (messages self) (timeout ∷ rs))
        (sym (timeout_session self sock rs n (ap₂ ◌&&◌ run good) more))
        (same_bytes (messages self) _ rs _
          (session-Transcript rs self sock (suc n) run good (omega (arith, more))))
  | no last ↦
      let at_last : n ≡ max_num_timeouts = omega (arith, h, last) in
      subst (Told (messages self) (timeout ∷ rs))
        (sym (
          ap (λ (k : ℕ). session self sock k (timeout ∷ rs)) at_last
          ∙ last_timeout self sock rs (ap₂ ◌&&◌ run good)))
        (gone self (timeout ∷ rs))
]
session-Transcript (error ∷ rs) self sock n run good h =
    subst (Told (messages self) (error ∷ rs))
      (sym (error_session self sock rs n (ap₂ ◌&&◌ run good) h)) (gone self (error ∷ rs))
