-- ===== src/Edi/Pft/Chunks.antt =====
-- PFT::Protect against a receiver that splits the RS block into codewords.
use odr_source_companion.Base.{
  ℕ, zero, suc, ◌+◌, ◌-◌, ◌*◌, ◌≤◌, ◌<◌, ◌==◌, ltb, if◌then◌else◌, ◌≡◌, refl, ap, sym, ◌∙◌, arith,
  Bool, true, false, List, [], ◌∷◌, ◌++◌, length, take, drop, replicate, tabulate, joined, Option,
  none, some, length-append, length-take, length-drop, length-replicate, take-append, drop-append,
  take-all, joined-runs,
}
use mathlib.Core.List.{append_assoc}
use native.Mathlib.Nat.{mul-le-mul_left}
use odr_source_companion.Edi.Result.{ok}
use odr_source_companion.Edi.Pft.{Pft, protect_chunk, protect_chunks, protect_with, protect}
use odr_source_companion.Edi.Pft.Sizes.{IsCeil, ceil_div-IsCeil, IsCeil-pos, IsCeil-below}

abbrev pub same_bytes : List ℕ → List ℕ → Bool
same_bytes [] [] = true
same_bytes [] (y ∷ ys) = false
same_bytes (x ∷ xs) [] = false
same_bytes (x ∷ xs) (y ∷ ys) = if x == y then same_bytes xs ys else false

pub same_bytes_refl : (xs : List ℕ) → same_bytes xs xs ≡ true
same_bytes_refl [] = refl
same_bytes_refl (x ∷ xs) = let e : (x == x) ≡ true = ground arith in rw (e) (same_bytes_refl xs)

module _ (rs_encode : List ℕ → List ℕ) where
  -- A receiver that gets every codeword whole: it checks the protection of each against the chunk
  -- padded to 207 bytes, and puts the chunks together.
  unfoldable pub receive_codewords : ℕ → ℕ → List ℕ → Option (List ℕ)
  receive_codewords zero chunk_len block = some []
  receive_codewords (suc chunks) chunk_len block =
      let rest = receive_codewords chunks chunk_len (drop (chunk_len + 48) block) in
      let chunk = take chunk_len block in
      let parity = take 48 (drop chunk_len block) in
      if same_bytes parity (rs_encode (chunk ++ replicate (207 - chunk_len) 0))
      then elim rest [ none ↦ none | some packet ↦ some (chunk ++ packet) ]
      else none

  abbrev chunk_at : ℕ → List ℕ → ℕ → List ℕ
  chunk_at k packet j = protect_chunk rs_encode k packet (j * k)

  -- The loop over the chunks of a padded packet ends, with every chunk in its place.
  protect_chunks-joined :
      (k m c fuel : ℕ) (packet : List ℕ)
      → 0 < k
      → length packet ≡ (c + m) * k
      → m < fuel
      → protect_chunks rs_encode fuel k packet (c * k)
        ≡ some (joined (tabulate (chunk_at k packet) m c))
  unfolding protect_chunks
  protect_chunks-joined k m c zero packet pos e f = absurd (omega arith)
  protect_chunks-joined k zero c (suc fuel) packet pos e f =
      let stop : ltb (c * k) (length packet) ≡ false = ground arith in rw (stop) refl
  protect_chunks-joined k (suc m) c (suc fuel) packet pos e f =
      let more : ltb (c * k) (length packet) ≡ true = ground arith in
      let next : c * k + k ≡ suc c * k = omega arith in
      let rest = protect_chunks-joined k m (suc c) fuel packet pos (omega arith) (omega arith) in
      rw (more, next, rest) refl

  protect_chunks-whole :
      (k n fuel : ℕ) (packet : List ℕ)
      → 0 < k
      → length packet ≡ n * k
      → n < fuel
      → protect_chunks rs_encode fuel k packet 0 ≡ some (joined (tabulate (chunk_at k packet) n 0))
  protect_chunks-whole k n fuel packet pos e f =
      let start : 0 ≡ 0 * k = omega arith in
      ap (protect_chunks rs_encode fuel k packet) start
      ∙ protect_chunks-joined k n 0 fuel packet pos (omega arith) f

  module _ (parity_length : (chunk : List ℕ) → length (rs_encode chunk) ≡ 48) where
    -- A chunk that lies in the packet gives a codeword of `k` and 48 bytes.
    length-protect_chunk :
        (k : ℕ) (packet : List ℕ) (j : ℕ)
        → suc j * k ≤ length packet
        → length (chunk_at k packet j) ≡ k + 48
    unfolding protect_chunk
    length-protect_chunk k packet j h =
        let data' = take k (drop (j * k) packet) in
        let parity = parity_length (data' ++ replicate (207 - k) 0) in
        omega (
          arith,
          parity,
          length-append {0} data' (rs_encode (data' ++ replicate (207 - k) 0)),
          length-take {0} k (drop (j * k) packet),
          length-drop {0} (j * k) packet,
        )

    length-joined :
        (k m c : ℕ) (packet : List ℕ)
        → (c + m) * k ≤ length packet
        → length (joined (tabulate (chunk_at k packet) m c)) ≡ m * (k + 48)
    length-joined k zero c packet h = omega arith
    length-joined k (suc m) c packet h =
        let rest = length-joined k m (suc c) packet (omega arith) in
        let first : length (chunk_at k packet c) ≡ k + 48 =
          length-protect_chunk k packet c (omega arith) in
        omega (
          arith,
          length-append {0} (chunk_at k packet c) (joined (tabulate (chunk_at k packet) m (suc c))),
          rest,
          first,
        )

    -- The receiver takes the codewords apart again.
    receive_codewords-joined :
        (k m c : ℕ) (packet : List ℕ)
        → (c + m) * k ≤ length packet
        → receive_codewords m k (joined (tabulate (chunk_at k packet) m c))
          ≡ some (take (m * k) (drop (c * k) packet))
    unfolding receive_codewords protect_chunk
    receive_codewords-joined k m c packet h = go m c h ∙ ap some (joined-runs k m c packet)
      where
        go :
            (m c : ℕ)
            → (c + m) * k ≤ length packet
            → receive_codewords m k (joined (tabulate (chunk_at k packet) m c))
              ≡ some (joined (tabulate (λ j. take k (drop (j * k) packet)) m c))
        go zero c h = refl
        go (suc m) c h =
            let data' = take k (drop (c * k) packet) in
            let parity = rs_encode (data' ++ replicate (207 - k) 0) in
            let others = joined (tabulate (chunk_at k packet) m (suc c)) in
            let data_length : k ≡ length data' =
              omega
                (arith, length-take {0} k (drop (c * k) packet), length-drop {0} (c * k) packet) in
            let split : (data' ++ parity) ++ others ≡ data' ++ (parity ++ others) =
              append_assoc data' parity others in
            let first : take k (data' ++ (parity ++ others)) ≡ data' =
              take-append data' (parity ++ others) k data_length in
            let second : drop k (data' ++ (parity ++ others)) ≡ parity ++ others =
              drop-append data' (parity ++ others) k data_length in
            let third : take 48 (parity ++ others) ≡ parity =
              take-append parity others 48 (sym (parity_length (data' ++ replicate (207 - k) 0))) in
            let fourth : drop (k + 48) ((data' ++ parity) ++ others) ≡ others =
              drop-append (data' ++ parity) others (k + 48)
                (sym (length-protect_chunk k packet c (omega arith))) in
            rw
              (
                fourth,
                split,
                first,
                second,
                third,
                same_bytes_refl parity,
                go m (suc c) (omega arith),
                split,
                first,
              )
              refl

    receive_codewords-whole :
        (k n : ℕ) (packet : List ℕ)
        → length packet ≡ n * k
        → receive_codewords n k (joined (tabulate (chunk_at k packet) n 0)) ≡ some packet
    receive_codewords-whole k n packet e =
        let start : 0 * k ≡ 0 = omega arith in
        receive_codewords-joined k n 0 packet (omega arith)
        ∙ ap (λ (t : ℕ). some (take (n * k) (drop t packet))) start
        ∙ ap some (take-all (n * k) packet (omega arith))

-- What TS 102 821 asks of a protected packet: the fewest chunks of at most `m_k` bytes, chunks of
-- one size that the packet needs, and padding at the end of the last one.
pub record Protected (rs_encode : List ℕ → List ℕ) (self : Pft) (af_packet : List ℕ) : Type 0 where
  pub chunks : ℕ
  pub chunk_len : ℕ
  pub zero_pad : ℕ
  pub block : List ℕ
  pub returned :
      protect rs_encode self af_packet ≡ ok (block, record self { m_num_chunks = chunks })
  pub fewest : IsCeil (length af_packet) self.m_k chunks
  pub even : IsCeil (length af_packet) chunks chunk_len
  pub fits : chunk_len ≤ self.m_k
  pub padding : length af_packet + zero_pad ≡ chunks * chunk_len
  pub below : zero_pad < chunks
  pub block_length : length block ≡ chunks * (chunk_len + 48)
  pub received :
      receive_codewords rs_encode chunks chunk_len block ≡ some (af_packet ++ replicate zero_pad 0)

module _ (rs_encode : List ℕ → List ℕ)
    (parity_length : (chunk : List ℕ) → length (rs_encode chunk) ≡ 48) where
  -- With an encoder that gives 48 bytes of parity, a chunk length of 1 to 207 (the constructor lets 0
  -- pass as well) and a packet with bytes, `Protect` ends without an error; the chunks are as few and
  -- as short as the length allows, and a receiver of the block reads the packet and its padding.
  pub protect_lem :
      (self : Pft) (af_packet : List ℕ)
      → 0 < self.m_k
      → self.m_k ≤ 207
      → 0 < length af_packet
      → Protected rs_encode self af_packet
  unfolding protect protect_with
  protect_lem self af_packet pos small some_bytes =
      let (n, ceil_n, fewest) = ceil_div-IsCeil (length af_packet) self.m_k pos in
      let n_pos = IsCeil-pos fewest some_bytes in
      let (k, ceil_k, even) = ceil_div-IsCeil (length af_packet) n n_pos in
      let k_pos = IsCeil-pos even some_bytes in
      let fits : k ≤ self.m_k = even.least self.m_k (omega (arith, fewest.covers)) in
      let pad = n * k - length af_packet in
      let padded = af_packet ++ replicate pad 0 in
      let covers : length af_packet ≤ n * k = omega (arith, even.covers) in
      let padded_length : length padded ≡ n * k = omega (
        arith,
        covers,
        length-append {0} af_packet (replicate pad 0),
        length-replicate {A = ℕ} pad 0,
      ) in
      let whole : (0 + n) * k ≤ length padded = omega (arith, padded_length) in
      let block = joined (tabulate (chunk_at rs_encode k padded) n 0) in
      let loop : protect_chunks rs_encode (suc (length padded)) k padded 0 ≡ some block =
        protect_chunks-whole rs_encode k n (suc (length padded)) padded k_pos padded_length
          (enough n k (length padded) k_pos padded_length) in
      let in_range : ltb 207 k ≡ false = ground arith in
      record {
        chunks = n;
        chunk_len = k;
        zero_pad = pad;
        block = block;
        returned = rw (ceil_n, ceil_k, in_range, loop) refl;
        fewest = fewest;
        even = even;
        fits = fits;
        padding = omega (arith, covers);
        below = IsCeil-below n_pos k_pos even;
        block_length = length-joined rs_encode parity_length k n 0 padded whole;
        received = receive_codewords-whole rs_encode parity_length k n padded padded_length;
      }
    where
      enough : (n k l : ℕ) → 0 < k → l ≡ n * k → n < suc l
      enough n k l pos e = let grow : n * 1 ≤ n * k = mul-le-mul_left n pos in omega (arith, grow)
