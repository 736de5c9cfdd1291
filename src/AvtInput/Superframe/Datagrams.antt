-- ===== src/AvtInput/Superframe/Datagrams.antt =====
-- `_readFrame` on the datagrams that an encoder sends.
use odr_source_companion.Base.{
  ℕ, suc, ◌+◌, ◌*◌, ◌^◌, ◌≤◌, ◌<◌, ltb, ◌==◌, if◌then◌else◌, Bool, true, false, Bool-cases, inl,
  inr, ◌⊎◌, List, [], ◌∷◌, ◌++◌, length, length-append, length-take, length-drop, take, take-all,
  drop, All, Option, none, some, ==_iff, le→ltb, lt→ltb, if_true, if_false, ◌≡◌, refl, ap, sym, ◌∙◌,
  subst, arith,
}
use native.Mathlib.Decide.{dec_lt, ℕ_discrete}
use odr_source_companion.OrderedQueue
use odr_source_companion.OrderedQueue.{OrderedQueue, OrderedQueueData, Timestamp, wrap}
use odr_source_companion.OrderedQueue.Stock.{lookup}
use odr_source_companion.OrderedQueue.Invariant.{push-IsValid, lookup-push}
use odr_source_companion.AvtInput.{AvtInput, Arrival, type_sti, type_sti_rtp, type_cant_extract}
use odr_source_companion.AvtInput.Datagram.{◌>>=◌, Found, info, find_dab_frame_from_udp}
use odr_source_companion.AvtInput.Datagram.Framing.{
  StiFrame, InRange, RtpHeader, sti_bytes, sti_header, length-sti_header, sti_found, rtp_bytes,
  find_dab_frame-datagram,
}
use odr_source_companion.AvtInput.Superframe.{copy_out, file_frame, interpret_datagram, read_from}
use odr_source_companion.AvtInput.Superframe.Ready.{
  Assembly, assembly, Part, AllSized, IsReady, assembly-info,
}
use odr_source_companion.AvtInput.Superframe.Parts.{with_queue-IsReady}
use odr_source_companion.AvtInput.Superframe.Messages.{Sockets, sockets, sockets-info}

-- A datagram of the encoder, in a link whose packets have at most 1500 bytes, or one that is too
-- short to be looked at.
pub data IsDatagram (size : ℕ) : List ℕ → Type 0 where
  short : (buf : List ℕ) → length buf ≤ size → IsDatagram size buf
  sti : (f : StiFrame) → InRange f → IsDatagram size (sti_bytes f)
  rtp :
      (h : RtpHeader) (f : StiFrame)
      → h.sequence < 2 ^ 16
      → InRange f
      → IsDatagram size (rtp_bytes h ++ sti_bytes f)

push-AllSized :
    (size : ℕ) (q : OrderedQueue) (index : ℕ) (buf : List ℕ) (ts : Timestamp)
    → length buf ≡ size
    → AllSized size q
    → AllSized size (OrderedQueue.push q index buf ts)
push-AllSized size q index buf ts h sized j d e =
    go (ltb (length q.stock) q.capacity) (wrap q index == j)
      (sym ((lookup-push q index buf ts j).0) ∙ e)
  where
    go :
        (b c : Bool)
        → (if b
            then (if c
                then some (record { buf = buf; capture_timestamp = ts })
                else lookup j q.stock)
            else lookup j q.stock)
          ≡ some d
        → length d.buf ≡ size
    go true true e = cc
    go true false e = sized j d e
    go false c e = sized j d e

-- What is filed was found inside the datagram.
file_frame-IsReady :
    {expected : ℕ} (self : AvtInput) (parts : List Part) (buf : List ℕ) (ts : Timestamp) (f : Found)
    → IsReady expected (assembly self) parts
    → f.index + f.data_size ≤ length buf
    → (self' : AvtInput) × (file_frame self buf ts (some f) ≡ some self')
      × IsReady expected (assembly self') parts
      × (sockets self' ≡ sockets self)
unfolding file_frame
file_frame-IsReady self parts buf ts f r inside =
    let frame = take f.data_size (drop f.index buf) in
    let pushed = OrderedQueue.push self.ordered f.frame_number frame ts in
    elim (ℕ_discrete f.data_size self.dab24ms_frame_size) [
      | no other ↦
          let differs : (f.data_size == self.dab24ms_frame_size) ≡ false = ground arith in
          (self, if_false (f.data_size == self.dab24ms_frame_size) _ _ differs, r, refl)
      | yes same ↦
          let sized : length frame ≡ self.dab24ms_frame_size = omega (
            arith,
            length-take {0} f.data_size (drop f.index buf),
            length-drop {0} f.index buf,
            same,
          ) in
          let copied : copy_out buf f.index f.data_size ≡ some frame =
            if_false (ltb (length buf) (f.index + f.data_size)) none (some frame)
              (le→ltb (length buf) (f.index + f.data_size) inside) in
          let filed : List ℕ → Option AvtInput = λ frame.
            some
              (record self { ordered = OrderedQueue.push self.ordered f.frame_number frame ts }) in
          (
            record self { ordered = pushed },
            if_true (f.data_size == self.dab24ms_frame_size)
                  (copy_out buf f.index f.data_size >>= filed) (some self) ((==_iff _ _).1 same)
                ∙ ap (λ (o : Option (List ℕ)). o >>= filed) copied,
            with_queue-IsReady (assembly self) parts pushed r
                (push-IsValid self.ordered f.frame_number frame ts r.queue_valid)
                (push-AllSized self.dab24ms_frame_size self.ordered f.frame_number frame ts sized
                  r.queue_sized),
            refl,
          )
    ]

-- What was found in a datagram of the encoder is filed.
found-IsReady :
    {expected : ℕ} (self next : AvtInput) (parts : List Part) (buf : List ℕ) (ts : Timestamp)
    (f : Found)
    → IsReady expected (assembly self) parts
    → assembly next ≡ assembly self
    → sockets next ≡ sockets self
    → self.dab24ms_frame_size < length buf
    → find_dab_frame_from_udp self buf ≡ some (some f, next)
    → f.index + f.data_size ≤ length buf
    → (self' : AvtInput) × (interpret_datagram self buf ts ≡ some self')
      × IsReady expected (assembly self') parts
      × (sockets self' ≡ sockets self)
unfolding interpret_datagram
found-IsReady {expected = expected} self next parts buf ts f r same still long found inside =
    let filed : Option Found × AvtInput → Option AvtInput =
      λ result. file_frame result.1 buf ts result.0 in
    let (self', run, r', still') =
      file_frame-IsReady next parts buf ts f
        (subst (λ (a : Assembly). IsReady expected a parts) (sym same) r) inside in
    (
      self',
      if_true (ltb self.dab24ms_frame_size (length buf))
            (find_dab_frame_from_udp self buf >>= filed) _
            (lt→ltb self.dab24ms_frame_size (length buf) long)
          ∙ ap (λ (o : Option (Option Found × AvtInput)). o >>= filed) found
          ∙ run,
      r',
      still' ∙ still,
    )

short-IsReady :
    {expected : ℕ} (self : AvtInput) (parts : List Part) (buf : List ℕ) (ts : Timestamp)
    → IsReady expected (assembly self) parts
    → length buf ≤ self.dab24ms_frame_size
    → (self' : AvtInput) × (interpret_datagram self buf ts ≡ some self')
      × IsReady expected (assembly self') parts
      × (sockets self' ≡ sockets self)
unfolding interpret_datagram
short-IsReady {expected = expected} self parts buf ts r h = (
  info self type_cant_extract 0,
  if_false (ltb self.dab24ms_frame_size (length buf)) _ _
      (le→ltb self.dab24ms_frame_size (length buf) h),
  subst (λ (a : Assembly). IsReady expected a parts) (sym (assembly-info self type_cant_extract 0))
      r,
  sockets-info self type_cant_extract 0,
)

length-sti_bytes :
    (f : StiFrame)
    → length (sti_bytes f) ≡ 24 + length f.others * 4 + length f.frame + length f.rest
length-sti_bytes f = omega (
  arith,
  length-append {0} (sti_header f) (f.frame ++ f.rest),
  length-append {0} f.frame f.rest,
  length-sti_header f,
)

abbrev no_header : RtpHeader
no_header = record { flags = 0; marker = false; sequence = 0; timestamp = 0; source = 0 }

-- Every datagram of the encoder is interpreted.
interpret_datagram-IsReady :
    {expected : ℕ} (self : AvtInput) (parts : List Part) (buf : List ℕ) (ts : Timestamp)
    → IsReady expected (assembly self) parts
    → IsDatagram self.dab24ms_frame_size buf
    → (self' : AvtInput) × (interpret_datagram self buf ts ≡ some self')
      × IsReady expected (assembly self') parts
      × (sockets self' ≡ sockets self)
interpret_datagram-IsReady {expected = expected} self parts buf ts r d =
    elim (dec_lt self.dab24ms_frame_size (length buf)) [
      | no h ↦ short-IsReady self parts buf ts r (omega (arith, h))
      | yes long ↦ go buf d long
    ]
  where
    go :
        (buf : List ℕ)
        → IsDatagram self.dab24ms_frame_size buf
        → self.dab24ms_frame_size < length buf
        → (self' : AvtInput) × (interpret_datagram self buf ts ≡ some self')
          × IsReady expected (assembly self') parts
          × (sockets self' ≡ sockets self)
    go buf (short b h) long = absurd (omega arith)
    go buf (sti f g) long =
        let found = (find_dab_frame-datagram self no_header f g (omega arith)).0 in
        found-IsReady self (info self type_sti (length f.frame)) parts (sti_bytes f) ts
          (sti_found 0 f) r (assembly-info self type_sti (length f.frame))
          (sockets-info self type_sti (length f.frame)) long found
          (omega (arith, length-sti_bytes f))
    go buf (rtp h f s g) long =
        let found = (find_dab_frame-datagram self h f g s).2 in
        let next = record self { previous_rtp_index = some h.sequence } in
        found-IsReady self (info next type_sti_rtp (length f.frame)) parts
          (rtp_bytes h ++ sti_bytes f) ts (sti_found 12 f) r
          (assembly-info next type_sti_rtp (length f.frame))
          (sockets-info next type_sti_rtp (length f.frame)) long found
          (omega (arith, length-sti_bytes f, length-append {0} (rtp_bytes h) (sti_bytes f)))

abbrev pub IsArrival : ℕ → Arrival → Type 0
IsArrival size arrival = (length arrival.bytes ≤ 1500) × IsDatagram size arrival.bytes

-- A call that received data took a datagram out of the socket.
pub read_from-IsReady :
    {expected : ℕ} (self : AvtInput) (parts : List Part) (arrivals : List Arrival)
    → IsReady expected (assembly self) parts
    → All (IsArrival self.dab24ms_frame_size) arrivals
    → (received : Bool) × (self' : AvtInput) × (read_from self arrivals ≡ some (received, self'))
      × IsReady expected (assembly self') parts
      × ((received ≡ false)
          ⊎ ((self'.input_pad_socket ≡ self.input_pad_socket)
              × (suc (length self'.input_socket) ≡ length arrivals)
              × All (IsArrival self'.dab24ms_frame_size) self'.input_socket))
read_from-IsReady self parts [] r h = (false, self, refl, r, inl refl)
read_from-IsReady self parts (arrival ∷ arrivals) r h =
    let buf = take 1500 arrival.bytes in
    let next = record self { input_socket = arrivals } in
    let whole : buf ≡ arrival.bytes = take-all 1500 arrival.bytes h.0.0 in
    let (self', run, r', still) =
      interpret_datagram-IsReady next parts buf arrival.time r
        (subst (IsDatagram self.dab24ms_frame_size) (sym whole) h.0.1) in
    elim (Bool-cases (length buf == 0)) [
      | inl e ↦ (false, next, if_true (length buf == 0) _ _ e, r, inl refl)
      | inr e ↦ (
        true,
        self',
        if_false (length buf == 0) _ _ e
            ∙ ap (λ (o : Option AvtInput). o >>= λ self''. some (true, self'')) run,
        r',
        inr (
          ap (λ (s : Sockets). s.pad) still,
          ap (λ (s : Sockets). suc (length s.input)) still,
          subst (λ (s : Sockets). All (IsArrival s.frame_size) s.input) (sym still) h.1,
        ),
      )
    ]
