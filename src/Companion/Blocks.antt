-- ===== src/Companion/Blocks.antt =====
-- A superframe on its way from the main loop to the receivers of the EDI output.
use odr_source_companion.Base.{
  ℕ, zero, suc, ◌+◌, ◌≤◌, length-take, length-drop, ◌*◌, ◌/◌, ◌%◌, ◌^◌, ◌<◌, ◌==◌, ==_iff, ◌&&◌,
  not, if◌then◌else◌, IsByte, false, List, [], ◌∷◌, ◌++◌, map, length, get_or, take, take-all, drop,
  tabulate, joined, joined-runs, All, Option, none, some, if_false, append-nil, append_assoc, ◌≡◌,
  refl, ap, ap₂, sym, ◌∙◌, subst, arith,
}
use odr_source_companion.Edi.Result.{Result, ok, ◌>>=◌}
use odr_source_companion.Edi.TagItems.Frame.{Tag, name_of}
use odr_source_companion.Edi.TagPacket.Receive.{receive_tags}
use odr_source_companion.Edi.AfPacket.Receive.{AfContent, receive_af}
use odr_source_companion.Edi.Transport.{Sender, sender, Sent, send_to_all, send_fragments}
use odr_source_companion.Outputs.Edi.{EdiOutput, sender_of}
use odr_source_companion.Outputs.Edi.Delivery.{Delivered, write_frame-Delivered}
use odr_source_companion.Companion.{Clocks, write_blocks, write_superframe}

-- The first stream of a TAG packet: what stands behind the three bytes of its characteristics.
unfoldable pub first_stream : List Tag → Option (List ℕ)
first_stream [] = none
first_stream (t ∷ ts) =
    let rest = first_stream ts in
    if get_or t.name 0 0 == b's' && (get_or t.name 1 0 == b's' && get_or t.name 3 0 == 1)
    then some (drop 3 t.value)
    else rest

abbrev pub read_content : AfContent → Option (List ℕ)
read_content content = elim (receive_tags (suc (length content.payload)) content.payload) [
  | none ↦ none
  | some ts ↦ first_stream ts
]

-- The stream in an AF packet, after the checks of the packet and of its tags.
unfoldable pub read_packet : List ℕ → Option (List ℕ)
read_packet packet = elim (receive_af packet) [ none ↦ none | some content ↦ read_content content ]

read_packet-Delivered :
    (self after : EdiOutput) (s : Sender) (offset now : ℕ) (bytes : List ℕ)
    (d : Delivered self s offset now bytes after)
    → read_packet d.packet ≡ some bytes
unfolding read_packet first_stream name_of
read_packet-Delivered self after s offset now bytes d =
    ap (λ (o : Option AfContent). elim o [ none ↦ none | some content ↦ read_content content ]) d.af
    ∙ ap (λ (o : Option (List Tag)). elim o [ none ↦ none | some ts ↦ first_stream ts ]) d.tags

drop-IsByte : (n : ℕ) (bytes : List ℕ) → All IsByte bytes → All IsByte (drop n bytes)
drop-IsByte zero bytes h = h
drop-IsByte (suc n) [] h = tt
drop-IsByte (suc n) (b ∷ bytes) h = drop-IsByte n bytes h.1

-- An output that writes AF packets without alignment by the sender `s`.
pub record IsPlain (self : EdiOutput) (s : Sender) : Type 0 where
  pub made : sender_of self ≡ ok s
  pub no_pft : s.m_conf.enable_pft ≡ false
  pub unaligned : self.m_edi_conf.tagpacket_alignment ≡ 0
  pub sequence : s.edi_af_packetiser.m_seq < 2 ^ 16
  pub short_version : length self.m_odr_version_tag < 2 ^ 24
  pub version_bytes : All IsByte self.m_odr_version_tag

Delivered-IsPlain :
    (self after : EdiOutput) (s : Sender) (offset now : ℕ) (bytes : List ℕ)
    (d : Delivered self s offset now bytes after)
    → IsPlain self s
    → IsPlain after d.s'
Delivered-IsPlain self after s offset now bytes d p = record {
  made =
      ap (λ (o : Option Sender). elim o [ none ↦ sender after.m_edi_conf | some s'' ↦ ok s'' ])
        d.kept;
  no_pft = ap (λ c. c.enable_pft) d.same_conf ∙ p.no_pft;
  unaligned = ap (λ c. c.tagpacket_alignment) d.same_edi_conf ∙ p.unaligned;
  sequence = omega (arith, d.sequence);
  short_version = subst (λ (v : List ℕ). length v < 2 ^ 24) (sym d.same_version) p.short_version;
  version_bytes = subst (All IsByte) (sym d.same_version) p.version_bytes;
}

-- Packets from which these streams are read, handed to each destination.
pub record Carries (s : Sender) (streams : List (List ℕ)) (s' : Sender) : Type 0 where
  pub packets : List (List ℕ)
  pub sent : s'.sent ≡ s.sent ++ send_fragments s.m_conf.destinations packets
  pub read : map read_packet packets ≡ map (λ (bytes : List ℕ). some bytes) streams

-- One packet for each of these blocks.
blocks-Carries :
    (rs_encode : List ℕ → List ℕ) (clocks : ℕ → Clocks) (left i : ℕ) (self : EdiOutput) (s : Sender)
    (outbuf : List ℕ) (n : ℕ)
    → IsPlain self s
    → n < 2 ^ 24
    → All IsByte outbuf
    → (after : EdiOutput) × (write_blocks rs_encode clocks left i self outbuf n ≡ ok after)
      × (s' : Sender) × IsPlain after s'
      × Carries s (tabulate (λ j. take n (drop (j * n) outbuf)) left i) s'
unfolding write_blocks
blocks-Carries rs_encode clocks zero i self s outbuf n p small bytes =
    (self, refl, s, p, record { packets = []; sent = sym (append-nil s.sent); read = refl })
blocks-Carries rs_encode clocks (suc left) i self s outbuf n p small bytes =
    let c = clocks i in
    let (next, run, d) =
      write_frame-Delivered rs_encode self s c.tai_utc_offset c.now c.write_time
        (drop (i * n) outbuf) n p.made p.no_pft p.unaligned p.sequence small
        (drop-IsByte (i * n) outbuf bytes) p.short_version p.version_bytes in
    let block = take n (drop (i * n) outbuf) in
    let p' = Delivered-IsPlain self next s c.tai_utc_offset c.now block d p in
    let (after, rest, s', plain, carried) =
      blocks-Carries rs_encode clocks left (suc i) next d.s' outbuf n p' small bytes in
    let ds = s.m_conf.destinations in
    let first = send_to_all ds d.packet in
    (
      after,
      ap
            (λ (r : Result EdiOutput).
              r >>= λ self'. write_blocks rs_encode clocks left (suc i) self' outbuf n)
            run
          ∙ rest,
      s',
      plain,
      record {
        packets = d.packet ∷ carried.packets;
        sent =
            carried.sent
            ∙ ap (λ c. d.s'.sent ++ send_fragments c.destinations carried.packets) d.same_conf
            ∙ ap (λ (l : List Sent). l ++ send_fragments ds carried.packets) d.to_all
            ∙ append_assoc s.sent first (send_fragments ds carried.packets);
        read =
            ap₂ (λ (o : Option (List ℕ)) (os : List (Option (List ℕ))). o ∷ os)
              (read_packet-Delivered self next s c.tai_utc_offset c.now block d) carried.read;
      },
    )

-- The fifths of a superframe, in their order.
abbrev pub fifths : List ℕ → List (List ℕ)
fifths outbuf = tabulate (λ j. take (length outbuf / 5) (drop (j * (length outbuf / 5)) outbuf)) 5 0

abbrev pub HasSize : ℕ → List ℕ → Type 0
HasSize n bytes = length bytes ≡ n

length-part :
    (n : ℕ) (outbuf : List ℕ) (j : ℕ)
    → (j + 1) * n ≤ length outbuf
    → length (take n (drop (j * n) outbuf)) ≡ n
length-part n outbuf j h = omega (
  arith,
  length-take {0} n (drop (j * n) outbuf),
  length-drop {0} (j * n) outbuf,
  right_distrib j n,
)
  where
    right_distrib : (j n : ℕ) → (j + 1) * n ≡ j * n + n
    right_distrib j n = omega arith

fifths-HasSize :
    (outbuf : List ℕ) → length outbuf % 5 ≡ 0 → All (HasSize (length outbuf / 5)) (fifths outbuf)
fifths-HasSize outbuf whole =
    let n = length outbuf / 5 in
    let part = length-part n outbuf in
    (
      part 0 (omega (arith, whole)),
      (
        part 1 (omega (arith, whole)),
        (
          part 2 (omega (arith, whole)),
          (part 3 (omega (arith, whole)), (part 4 (omega (arith, whole)), tt)),
        ),
      ),
    )

-- A superframe of bytes, whose length is a multiple of 5 and below 5 * 2 ^ 24, is written to an output
-- without PFT: each destination gets five packets in their order; from the j-th a receiver reads the j-th
-- fifth of the superframe. The fifths are of one size, and put together they are the superframe. The
-- output is then ready for the next one.
pub write_superframe-Carries :
    (rs_encode : List ℕ → List ℕ) (clocks : ℕ → Clocks) (self : EdiOutput) (s : Sender)
    (outbuf : List ℕ)
    → IsPlain self s
    → length outbuf % 5 ≡ 0
    → length outbuf < 5 * 2 ^ 24
    → All IsByte outbuf
    → (after : EdiOutput) × (s' : Sender) × (write_superframe rs_encode clocks self outbuf
          (length outbuf)
        ≡ ok after)
      × IsPlain after s'
      × Carries s (fifths outbuf) s'
      × All (HasSize (length outbuf / 5)) (fifths outbuf)
      × (joined (fifths outbuf) ≡ outbuf)
unfolding write_superframe
write_superframe-Carries rs_encode clocks self s outbuf p whole small bytes =
    let n = length outbuf / 5 in
    let size : 5 * n ≡ length outbuf = omega (arith, whole) in
    let (after, run, s', plain, carried) =
      blocks-Carries rs_encode clocks 5 0 self s outbuf n p (omega (arith, small)) bytes in
    (
      after,
      s',
      if_false (not (length outbuf % 5 == 0)) _ _ (ap not ((==_iff _ _).1 whole)) ∙ run,
      plain,
      carried,
      fifths-HasSize outbuf whole,
      joined-runs n 5 0 outbuf
          ∙ ap (λ (k : ℕ). take (5 * n) (drop k outbuf)) (let z : 0 * n ≡ 0 = omega arith in z)
          ∙ take-all (5 * n) outbuf (omega (arith, size)),
    )
