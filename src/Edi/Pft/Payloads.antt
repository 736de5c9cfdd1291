-- ===== src/Edi/Pft/Payloads.antt =====
-- The fragments that PFT::ProtectAndFragment returns.
use odr_source_companion.Base.{
  ℕ, ◌+◌, ◌*◌, ◌/◌, ◌≤◌, ◌<◌, ltb, ◌==◌, ==_iff, true, false, List, length, ◌≡◌, refl, arith,
}
use native.Mathlib.Nat.{
  mul-le-mul_left, mul-le-mul_right, le-div_iff_mul-le, div-mul-le_self, div-eq_of_lt,
}
use odr_source_companion.Edi.Result.{ok, err, division_by_zero}
use odr_source_companion.Edi.Pft.{Pft, ceil_div, protect_and_fragment, interleave, cut}
use odr_source_companion.Edi.Pft.Sizes.{IsCeil, ceil_div-IsCeil, IsCeil-pos, IsCeil-below}
use odr_source_companion.Edi.Pft.Chunks.{Protected}

-- The sizes of interleaved fragments. A receiver that lost `m_m` of them lost no more bytes than
-- the protection of the block has, and the fragments hold less than one codeword more than the block.
pub record Interleaved (rs_encode : List ℕ → List ℕ) (self : Pft) (af_packet : List ℕ)
    (p : Protected rs_encode self af_packet) : Type 0 where
  pub count : ℕ
  pub size : ℕ
  pub returned :
      protect_and_fragment rs_encode self af_packet
      ≡ ok (interleave p.block count size, record self { m_num_chunks = p.chunks })
  pub some_count : 0 < count
  pub holds : length p.block ≤ size * count
  pub room : size * count < length p.block + (p.chunk_len + 48)
  pub few : count ≤ p.chunk_len + 48
  pub recoverable : size * (self.m_m + 1) ≤ p.chunks * 48

-- The greatest payload of TS 102 821, 7.2.2, when fewer than 48 fragments are to be recovered.
greatest_payload :
    (chunks m : ℕ)
    → m < 48
    → (chunks ≤ chunks * 48 / (m + 1)) × (chunks * 48 / (m + 1) * (m + 1) ≤ chunks * 48)
greatest_payload chunks m h =
    let many : chunks * (m + 1) ≤ chunks * 48 = mul-le-mul_left chunks (omega arith) in
    ((le-div_iff_mul-le (omega arith)).1 many, div-mul-le_self (chunks * 48) (m + 1))

-- With fewer than 48 fragments to be recovered, a protected packet is cut into fragments.
pub protect_and_fragment-Interleaved :
    (rs_encode : List ℕ → List ℕ) (self : Pft) (af_packet : List ℕ)
    → 0 < self.m_m
    → self.m_m < 48
    → 0 < length af_packet
    → (p : Protected rs_encode self af_packet) → Interleaved rs_encode self af_packet p
unfolding protect_and_fragment
protect_and_fragment-Interleaved rs_encode self af_packet some_m few_m some_bytes p =
    let payload = p.chunks * 48 / (self.m_m + 1) in
    let (payload_chunks, payload_m) = greatest_payload p.chunks self.m_m few_m in
    let block_pos : 0 < length p.block = omega (arith, p.block_length, p.padding, p.below) in
    let payload_pos : 0 < payload = omega (arith, payload_chunks, p.below) in
    let (count, ceil_count, fewest) = ceil_div-IsCeil (length p.block) payload payload_pos in
    let count_pos = IsCeil-pos fewest block_pos in
    let (size, ceil_size, even) = ceil_div-IsCeil (length p.block) count count_pos in
    let size_pos = IsCeil-pos even block_pos in
    let protected : ltb 0 self.m_m ≡ true = ground arith in
    let returned = p.returned in
    let small : size ≤ payload = even.least payload (omega (arith, fewest.covers)) in
    let few : count ≤ p.chunk_len + 48 =
      fewest.least (p.chunk_len + 48)
        (omega (arith, mul-le-mul_left (p.chunk_len + 48) payload_chunks, p.block_length)) in
    let over = IsCeil-below count_pos size_pos even in
    record {
      count = count;
      size = size;
      returned = rw (protected, returned, ceil_count, ceil_size) refl;
      some_count = count_pos;
      holds = even.covers;
      room = omega (arith, over, few);
      few = few;
      recoverable = omega (arith, mul-le-mul_right (self.m_m + 1) small, payload_m);
    }

-- With 48 fragments to be recovered from each chunk, or more, no payload is left: the source divides
-- by zero.
pub protect_and_fragment-division_by_zero :
    (rs_encode : List ℕ → List ℕ) (self : Pft) (af_packet : List ℕ)
    → (p : Protected rs_encode self af_packet) → p.chunks * 48 ≤ self.m_m
    → protect_and_fragment rs_encode self af_packet ≡ err division_by_zero
unfolding protect_and_fragment ceil_div
protect_and_fragment-division_by_zero rs_encode self af_packet p h =
    let protected : ltb 0 self.m_m ≡ true = ground (arith, p.below) in
    let none_left : (p.chunks * 48 / (self.m_m + 1) == 0) ≡ true =
      (==_iff _ _).1 (div-eq_of_lt (omega arith)) in
    let returned = p.returned in rw (protected, returned, none_left) refl

-- Without protection a packet is cut into runs of at most 1400 bytes.
pub protect_and_fragment-cut :
    (rs_encode : List ℕ → List ℕ) (self : Pft) (af_packet : List ℕ)
    → self.m_m ≡ 0
    → 0 < length af_packet
    → (count : ℕ) × (size : ℕ) × (protect_and_fragment rs_encode self af_packet
        ≡ ok (cut af_packet count size, self))
      × IsCeil (length af_packet) 1400 count
      × IsCeil (length af_packet) count size
      × (size ≤ 1400)
unfolding protect_and_fragment
protect_and_fragment-cut rs_encode self af_packet no_m some_bytes =
    let (count, ceil_count, fewest) = ceil_div-IsCeil (length af_packet) 1400 (omega arith) in
    let (size, ceil_size, even) =
      ceil_div-IsCeil (length af_packet) count (IsCeil-pos fewest some_bytes) in
    let plain : ltb 0 self.m_m ≡ false = ground arith in
    (
      count,
      size,
      rw (plain, ceil_count, ceil_size) refl,
      fewest,
      even,
      even.least 1400 (omega (arith, fewest.covers)),
    )
