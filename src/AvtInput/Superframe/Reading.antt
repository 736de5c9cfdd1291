-- ===== src/AvtInput/Superframe/Reading.antt =====
-- The loop that reads messages and datagrams.
use odr_source_companion.Base.{
  ℕ, zero, suc, ◌+◌, ◌<◌, Bool, true, false, inl, inr, ◌⊎◌, List, length, All, Option, some, ◌≡◌,
  refl, ap, sym, ◌∙◌, subst, arith,
}
use odr_source_companion.AvtInput.{AvtInput, Arrival, UdpPacket}
use odr_source_companion.AvtInput.Datagram.{◌>>=◌}
use odr_source_companion.AvtInput.Pad.{check_message}
use odr_source_companion.AvtInput.Superframe.{read_frame, read_all, after_frame, after_message}
use odr_source_companion.AvtInput.Superframe.Ready.{
  Assembly, assembly, Part, IsReady, assembly-check_message,
}
use odr_source_companion.AvtInput.Superframe.Messages.{
  sockets, Fewer, fewer, check_message-IsFewer, IsFewer-Fewer,
}
use odr_source_companion.AvtInput.Superframe.Datagrams.{IsArrival, read_from-IsReady}

after_message-received :
    (continue : AvtInput → Option AvtInput) (m : Bool × AvtInput)
    → m.0 ≡ true
    → after_message continue m ≡ continue m.1
after_message-received continue (true, self) e = refl
after_message-received continue (false, self) e = absurd cc

after_message-no_message :
    (continue : AvtInput → Option AvtInput) (m : Bool × AvtInput)
    → m.0 ≡ false
    → after_message continue m ≡ (read_frame m.1 >>= after_frame continue)
after_message-no_message continue (true, self) e = absurd cc
after_message-no_message continue (false, self) e = refl

-- The loop that reads ends: each round but the last takes a packet or a datagram out of a socket.
pub read_all-IsReady :
    {expected : ℕ} (fuel : ℕ) (self : AvtInput) (parts : List Part)
    → IsReady expected (assembly self) parts
    → All (IsArrival self.dab24ms_frame_size) self.input_socket
    → length self.input_pad_socket + length self.input_socket < fuel
    → (self' : AvtInput) × (read_all fuel self ≡ some self')
      × IsReady expected (assembly self') parts
unfolding read_all read_frame
read_all-IsReady zero self parts r h lt = absurd (omega arith)
read_all-IsReady {expected = expected} (suc fuel) self parts r h lt =
    let m = check_message self in
    let r' : IsReady expected (assembly m.1) parts =
      subst (λ (a : Assembly). IsReady expected a parts) (sym (assembly-check_message self)) r in
    go (λ self' r h lt. read_all-IsReady fuel self' parts r h lt) m r'
      (IsFewer-Fewer (check_message-IsFewer self))
  where
    Rounds : Type 0
    Rounds =
        (self' : AvtInput)
        → IsReady expected (assembly self') parts
        → All (IsArrival self'.dab24ms_frame_size) self'.input_socket
        → length self'.input_pad_socket + length self'.input_socket < fuel
        → (end : AvtInput) × (read_all fuel self' ≡ some end)
          × IsReady expected (assembly end) parts

    frames :
        Rounds
        → (self' : AvtInput) (received : Bool) (self'' : AvtInput)
        → IsReady expected (assembly self'') parts
        → length self'.input_pad_socket + length self'.input_socket < suc fuel
        → (received ≡ false)
          ⊎ ((self''.input_pad_socket ≡ self'.input_pad_socket)
              × (suc (length self''.input_socket) ≡ length self'.input_socket)
              × All (IsArrival self''.dab24ms_frame_size) self''.input_socket)
        → (end : AvtInput) × (after_frame (read_all fuel) (received, self'') ≡ some end)
          × IsReady expected (assembly end) parts
    frames rounds self' false self'' r lt s = (self'', refl, r)
    frames rounds self' true self'' r lt (inl e) = absurd cc
    frames rounds self' true self'' r lt (inr (pads, inputs, good)) =
        rounds self'' r good (omega (arith, ap (λ (ps : List UdpPacket). length ps) pads))

    go :
        Rounds
        → (m : Bool × AvtInput) → IsReady expected (assembly m.1) parts
        → Fewer (sockets self) m.0 (sockets m.1)
        → (self' : AvtInput) × (after_message (read_all fuel) m ≡ some self')
          × IsReady expected (assembly self') parts
    go rounds (true, next) r (fewer inputs size pads (inl e)) = absurd cc
    go rounds (true, next) r (fewer inputs size pads (inr less)) =
        rounds next r
          (subst (λ (n : ℕ). All (IsArrival n) next.input_socket) (sym size)
            (subst (All (IsArrival self.dab24ms_frame_size)) (sym inputs) h))
          (omega (arith, ap (λ (xs : List Arrival). length xs) inputs))
    go rounds (false, next) r (fewer inputs size pads s) =
        let (received, next', run, r', t) = read_from-IsReady next parts next.input_socket r (
          subst (λ (n : ℕ). All (IsArrival n) next.input_socket) (sym size)
            (subst (All (IsArrival self.dab24ms_frame_size)) (sym inputs) h)) in
        let (end, run', r'') =
          frames rounds next received next' r'
            (omega (arith, ap (λ (xs : List Arrival). length xs) inputs)) t in
        (
          end,
          ap (λ (o : Option (Bool × AvtInput)). o >>= after_frame (read_all fuel)) run ∙ run',
          r'',
        )
