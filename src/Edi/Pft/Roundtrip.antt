-- ===== src/Edi/Pft/Roundtrip.antt =====
-- PFT::Assemble and the receiver of its fragments.
use odr_source_companion.Base.{
  ℕ, ◌+◌, ◌-◌, ◌*◌, ◌/◌, ◌%◌, ◌^◌, ◌≤◌, ◌<◌, ltb, true, false, List, [], ◌∷◌, ◌++◌, length,
  take-append, length-append, length-replicate, replicate, joined, All, none, some, ◌≡◌, refl, ap,
  sym, ◌∙◌, arith,
}
use native.Mathlib.Nat.{div-eq_of_lt-le, mul-le-mul_left}
use native.Mathlib.Decide.{ℕ_discrete}
use odr_source_companion.Edi.Result.{ok}
use odr_source_companion.Edi.Pft.{Pft, add_headers, fec_fields, assemble, interleave, cut}
use odr_source_companion.Edi.Pft.Sizes.{ceil_div-IsCeil, IsCeil-pos, IsCeil-unique}
use odr_source_companion.Edi.Pft.Chunks.{Protected, protect_lem}
use odr_source_companion.Edi.Pft.Fragments.{
  joined-cut, cut-sizes, length-cut, deinterleave-interleave, length-interleave, interleave-sizes,
}
use odr_source_companion.Edi.Pft.Payloads.{
  Interleaved, protect_and_fragment-Interleaved, protect_and_fragment-cut,
}
use odr_source_companion.Edi.Pft.Headers.{FecInRange}
use odr_source_companion.Edi.Pft.Receive.{decode, receive_pft, receive_pft-add_headers}

length-joined :
    (size : ℕ) (payloads : List (List ℕ))
    → All (λ (payload : List ℕ). length payload ≡ size) payloads
    → length (joined payloads) ≡ size * length payloads
length-joined size [] sizes = omega arith
length-joined size (payload ∷ payloads) sizes = omega (
  arith,
  sizes.0,
  length-append {0} payload (joined payloads),
  length-joined size payloads sizes.1,
)

All-weaken :
    {P Q : List ℕ → Type 0} (payloads : List (List ℕ))
    → ((payload : List ℕ) → P payload → Q payload)
    → All P payloads
    → All Q payloads
All-weaken [] f h = tt
All-weaken (payload ∷ payloads) f h = (f payload h.0, All-weaken payloads f h.1)

-- Interleaved fragments are decoded to the packet.
decode-interleave :
    (rs_encode : List ℕ → List ℕ) (self : Pft) (af_packet : List ℕ)
    (p : Protected rs_encode self af_packet) (f : Interleaved rs_encode self af_packet p)
    → decode rs_encode self.m_pseq
        (some (p.chunk_len, p.zero_pad))
        (interleave p.block f.count f.size)
      ≡ some (self.m_pseq, af_packet)
unfolding decode
decode-interleave rs_encode self af_packet p f =
    let payloads = interleave p.block f.count f.size in
    let counted = length-interleave p.block f.count f.size in
    let bytes =
      length-joined f.size payloads (interleave-sizes p.block f.count f.size)
      ∙ ap (λ (c : ℕ). f.size * c) counted in
    let chunks : length (joined payloads) / (p.chunk_len + 48) ≡ p.chunks =
      ap (λ (t : ℕ). t / (p.chunk_len + 48)) bytes
      ∙ div-eq_of_lt-le (p.chunk_len + 48) {m = f.size * f.count}
          (omega (arith, p.block_length, f.holds)) (omega (arith, p.block_length, f.room)) in
    let size = sym p.block_length in
    let block = deinterleave-interleave p.block f.count f.size f.some_count f.holds in
    let codewords = p.received in
    let whole : length (af_packet ++ replicate p.zero_pad 0) - p.zero_pad ≡ length af_packet =
      omega (
        arith,
        length-append {0} af_packet (replicate p.zero_pad 0),
        length-replicate {A = ℕ} p.zero_pad 0,
      ) in
    let cut_off =
      take-append af_packet (replicate p.zero_pad 0)
        (length (af_packet ++ replicate p.zero_pad 0) - p.zero_pad) whole in
    rw (chunks, size, block, codewords, cut_off, decode) refl

-- What a receiver is to find, and the object that is left.
abbrev pub IsReceived : (List ℕ → List ℕ) → Pft → List ℕ → Type 0
IsReceived rs_encode self af_packet =
    (frames : List (List ℕ)) × (self' : Pft) × (assemble rs_encode self af_packet
      ≡ ok (frames, self'))
    × (self'.m_pseq ≡ (self.m_pseq + 1) % 2 ^ 16)
    × (self'.m_k ≡ self.m_k)
    × (self'.m_m ≡ self.m_m)
    × (receive_pft rs_encode frames ≡ some (self.m_pseq, af_packet))

decode-plain :
    (rs_encode : List ℕ → List ℕ) (pseq : ℕ) (payloads : List (List ℕ)) {packet : List ℕ}
    → joined payloads ≡ packet
    → decode rs_encode pseq none payloads ≡ some (pseq, packet)
unfolding decode
decode-plain rs_encode pseq payloads e = ap (λ (l : List ℕ). some (pseq, l)) e

-- Without protection.
receive_pft-plain :
    (rs_encode : List ℕ → List ℕ) (self : Pft) (af_packet : List ℕ)
    → self.m_pseq < 2 ^ 16
    → self.m_m ≡ 0
    → 0 < length af_packet
    → length af_packet < 2 ^ 24
    → IsReceived rs_encode self af_packet
unfolding assemble fec_fields
receive_pft-plain rs_encode self af_packet hp no_m some_bytes few =
    let (count, size, returned, fewest, even, small) =
      protect_and_fragment-cut rs_encode self af_packet no_m some_bytes in
    let payloads = cut af_packet count size in
    let plain : ltb 0 self.m_m ≡ false = ground arith in
    let counted = length-cut af_packet count size in
    let read =
      receive_pft-add_headers rs_encode self.m_pseq none payloads hp
        (omega (arith, counted, IsCeil-pos fewest some_bytes))
        (omega (arith, counted, fewest.least (length af_packet) (omega arith))) tt
        (All-weaken payloads (λ payload h. omega (arith, h, small))
          (cut-sizes af_packet size count)) in
    (
      add_headers self.m_pseq (length payloads) none 0 payloads,
      record self { m_pseq = (self.m_pseq + 1) % 2 ^ 16 },
      rw (returned, plain) refl,
      refl,
      refl,
      refl,
      read
          ∙ decode-plain rs_encode self.m_pseq payloads
              (joined-cut af_packet count size (omega (arith, even.covers))),
    )

-- RSk and RSz, computed anew, are what the block was made with.
fec_fields-protected :
    (rs_encode : List ℕ → List ℕ) (self : Pft) (af_packet : List ℕ)
    (p : Protected rs_encode self af_packet)
    → 0 < self.m_m
    → fec_fields (record self { m_num_chunks = p.chunks }) af_packet
      ≡ ok (some (p.chunk_len, p.zero_pad))
unfolding fec_fields
fec_fields-protected rs_encode self af_packet p some_m =
    let (c, ceil, even) = ceil_div-IsCeil (length af_packet) p.chunks (omega (arith, p.below)) in
    let same = IsCeil-unique even p.even in
    let protected : ltb 0 self.m_m ≡ true = ground arith in
    let pad : p.chunks * p.chunk_len - length af_packet ≡ p.zero_pad = omega (arith, p.padding) in
    rw (protected, ceil, same, pad) refl

-- The numbers of protected fragments fit their headers.
protected-ranges :
    (rs_encode : List ℕ → List ℕ) (self : Pft) (af_packet : List ℕ)
    (p : Protected rs_encode self af_packet) (f : Interleaved rs_encode self af_packet p)
    → 0 < self.m_m
    → self.m_k ≤ 207
    → length af_packet ≤ 256 * self.m_k
    → FecInRange (some (p.chunk_len, p.zero_pad)) × (f.count < 2 ^ 24) × (f.size < 2 ^ 14)
protected-ranges rs_encode self af_packet p f some_m small few =
    let chunks : p.chunks ≤ 256 = p.fewest.least 256 few in
    let double : f.size * 2 ≤ f.size * (self.m_m + 1) = mul-le-mul_left f.size (omega arith) in
    (
      (omega (arith, p.fits), omega (arith, p.below)),
      omega (arith, f.few, p.fits),
      omega (arith, f.recoverable),
    )

-- With protection.
receive_pft-protected :
    (rs_encode : List ℕ → List ℕ) (self : Pft) (af_packet : List ℕ)
    → Protected rs_encode self af_packet
    → self.m_pseq < 2 ^ 16
    → 0 < self.m_m
    → self.m_m < 48
    → self.m_k ≤ 207
    → 0 < length af_packet
    → length af_packet ≤ 256 * self.m_k
    → IsReceived rs_encode self af_packet
unfolding assemble
receive_pft-protected rs_encode self af_packet p hp some_m few_m small some_bytes few =
    let f = protect_and_fragment-Interleaved rs_encode self af_packet some_m few_m some_bytes p in
    let payloads = interleave p.block f.count f.size in
    let (fec_range, count_range, size_range) =
      protected-ranges rs_encode self af_packet p f some_m small few in
    let counted = length-interleave p.block f.count f.size in
    let returned = f.returned in
    let fields = fec_fields-protected rs_encode self af_packet p some_m in
    let fec = some (p.chunk_len, p.zero_pad) in
    (
      add_headers self.m_pseq (length payloads) fec 0 payloads,
      record self { m_pseq = (self.m_pseq + 1) % 2 ^ 16; m_num_chunks = p.chunks },
      rw (returned, fields) refl,
      refl,
      refl,
      refl,
      receive_pft-add_headers rs_encode self.m_pseq fec payloads hp
            (omega (arith, counted, f.some_count)) (omega (arith, counted, count_range)) fec_range
            (All-weaken payloads (λ payload h. omega (arith, h, size_range))
              (interleave-sizes p.block f.count f.size))
          ∙ decode-interleave rs_encode self af_packet p f,
    )

-- With an encoder of 48 bytes of protection, a chunk length that the constructor accepts and fewer
-- than 48 fragments to recover, an AF packet of 1 to 256 chunks is assembled into fragments from
-- which a receiver reads the packet and the object's number. The number is then advanced
-- modulo 2 ^ 16 and the configuration is kept.
pub receive_pft-assemble :
    (rs_encode : List ℕ → List ℕ) (parity_length : (chunk : List ℕ) → length (rs_encode chunk) ≡ 48)
    (self : Pft) (af_packet : List ℕ)
    → self.m_pseq < 2 ^ 16
    → 0 < self.m_k
    → self.m_k ≤ 207
    → self.m_m < 48
    → 0 < length af_packet
    → length af_packet ≤ 256 * self.m_k
    → IsReceived rs_encode self af_packet
receive_pft-assemble rs_encode parity_length self af_packet hp pos small few_m some_bytes few =
    elim (ℕ_discrete self.m_m 0) [
      | yes e ↦ receive_pft-plain rs_encode self af_packet hp e some_bytes (omega arith)
      | no ne ↦
          receive_pft-protected rs_encode self af_packet
            (protect_lem rs_encode parity_length self af_packet pos small some_bytes) hp
            (omega (arith, ne)) few_m small some_bytes few
    ]
