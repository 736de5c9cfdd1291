-- ===== src/Edi/Pft.antt =====
-- lib/edioutput/PFT.cpp and lib/edioutput/PFT.h: protection, fragmentation and transport.
pub mod Sizes
pub mod Chunks
pub mod Fragments
pub mod Headers
pub mod Payloads
pub mod Receive
pub mod Roundtrip
use odr_source_companion.Base.{
  ℕ, zero, suc, ◌+◌, ◌-◌, ◌*◌, ◌/◌, ◌%◌, bit_or, u8, u16, bytes16, bytes24, ltb, ◌==◌,
  if◌then◌else◌, Bool, List, [], ◌∷◌, ◌++◌, length, take, drop, get_or, replicate, tabulate, Option,
  none, some,
}
use odr_source_companion.Edi.Result.{
  Result, ok, err, ◌>>=◌, chunk_size_too_large, chunk_length_too_large, division_by_zero, endless,
}
use odr_source_companion.Edi.Checksum.{append_crc}

abbrev pub paritybytes : ℕ
paritybytes = 48

-- The fields of `configuration_t` that the PFT layer reads.
pub record Configuration : Type 0 where
  pub chunk_len : ℕ
  pub fec : ℕ

-- The transport header is always deactivated, and has no fields here.
pub record Pft : Type 0 where
  pub m_k : ℕ
  pub m_m : ℕ
  pub m_pseq : ℕ
  pub m_num_chunks : ℕ

-- The constructor. Many recoverable fragments only give a warning.
unfoldable pub new : Configuration → Result Pft
new conf =
    if ltb 207 conf.chunk_len
    then err chunk_size_too_large
    else ok (record { m_k = conf.chunk_len; m_m = conf.fec; m_pseq = 0; m_num_chunks = 0 })

-- The macro CEIL_DIV; a division by zero is undefined.
unfoldable pub ceil_div : ℕ → ℕ → Result ℕ
ceil_div a b = if b == 0 then err division_by_zero else ok (if a % b == 0 then a / b else a / b + 1)

abbrev pub ended {ℓ} : {A : Type ℓ} → Option A → Result A
ended none = err endless
ended (some a) = ok a

-- With RS the fragments interleave the bytes of the block.
unfoldable pub interleave : List ℕ → ℕ → ℕ → List (List ℕ)
interleave rs_block num_fragments fragment_size =
    tabulate
      (λ i.
        tabulate
          (λ j.
            let ix = j * num_fragments + i in
            if ltb ix (length rs_block) then get_or rs_block ix 0 else 0)
          fragment_size 0)
      num_fragments 0

-- Without RS a fragment is a run of bytes; the inner loop breaks at the end of the packet.
unfoldable pub copy_run : ℕ → List ℕ → ℕ → List ℕ
copy_run zero af_packet ix = []
copy_run (suc left) af_packet ix =
    let rest = copy_run left af_packet (ix + 1) in
    if ltb ix (length af_packet) then get_or af_packet ix 0 ∷ rest else []

unfoldable pub cut : List ℕ → ℕ → ℕ → List (List ℕ)
unfolding copy_run
cut af_packet num_fragments fragment_size =
    tabulate (λ i. copy_run fragment_size af_packet (i * fragment_size)) num_fragments 0

-- The bytes that stand before a fragment's payload, without their CRC. `fec` holds RSk and RSz.
abbrev pub fragment_header : ℕ → ℕ → ℕ → ℕ → Option (ℕ × ℕ) → List ℕ
fragment_header pseq findex fcount size fec =
    b'P' ∷ b'F' ∷ []
    ++ (bytes16 pseq
        ++ (bytes24 findex
            ++ (bytes24 fcount ++ elim fec [
              | none ↦ bytes16 size
              | some (chunk_len, zero_pad) ↦
                  bytes16 (bit_or size 0x8000) ++ u8 chunk_len ∷ u8 zero_pad ∷ []
            ])))

-- The loop over the fragments, with the counter `findex`.
unfoldable pub add_headers : ℕ → ℕ → Option (ℕ × ℕ) → ℕ → List (List ℕ) → List (List ℕ)
add_headers pseq fcount fec findex [] = []
add_headers pseq fcount fec findex (fragment ∷ fragments) =
    (append_crc (fragment_header pseq findex fcount (length fragment) fec) ++ fragment)
    ∷ add_headers pseq fcount fec (suc findex) fragments

-- RSk and RSz, computed anew from the number of chunks.
unfoldable pub fec_fields : Pft → List ℕ → Result (Option (ℕ × ℕ))
fec_fields self af_packet =
    if ltb 0 self.m_m
    then (do
      chunk_len ← ceil_div (length af_packet) self.m_num_chunks
      ok (some (chunk_len, self.m_num_chunks * chunk_len - length af_packet)))
    else ok none

-- What stands behind the AF packet is the Reed-Solomon encoder: from the 207 bytes of a padded
-- chunk to the protection bytes. It is lib/fec, which is not modelled.
module _ (rs_encode : List ℕ → List ℕ) where
  -- One round of the loop over the chunks, with the chunk at `i`.
  unfoldable pub protect_chunk : ℕ → List ℕ → ℕ → List ℕ
  protect_chunk chunk_len packet i =
      let data' = take chunk_len (drop i packet) in
      data' ++ rs_encode (data' ++ replicate (207 - chunk_len) 0)

  -- `for (i = 0; i < size; i += chunk_len)`; the fuel counts rounds, and `none` is a loop that does
  -- not end.
  unfoldable pub protect_chunks : ℕ → ℕ → List ℕ → ℕ → Option (List ℕ)
  protect_chunks zero chunk_len packet i = none
  protect_chunks (suc fuel) chunk_len packet i =
      let rest = protect_chunks fuel chunk_len packet (i + chunk_len) in
      if ltb i (length packet)
      then elim rest [ none ↦ none | some block ↦ some (protect_chunk chunk_len packet i ++ block) ]
      else some []

  unfoldable pub protect_with : Pft → List ℕ → ℕ → ℕ → Result (List ℕ × Pft)
  protect_with self af_packet num_chunks chunk_len =
      let zero_pad = num_chunks * chunk_len - length af_packet in
      let padded = af_packet ++ replicate zero_pad 0 in
      if ltb 207 chunk_len
      then err chunk_length_too_large
      else ended (protect_chunks (suc (length padded)) chunk_len padded 0) >>= λ rs_block.
          ok (rs_block, record self { m_num_chunks = num_chunks })

  -- The RS block, and the object with the number of chunks that `Assemble` reads again.
  unfoldable pub protect : Pft → List ℕ → Result (List ℕ × Pft)
  protect self af_packet = do
    num_chunks ← ceil_div (length af_packet) self.m_k
    chunk_len ← ceil_div (length af_packet) num_chunks
    protect_with self af_packet num_chunks chunk_len

  unfoldable pub protect_and_fragment : Pft → List ℕ → Result (List (List ℕ) × Pft)
  protect_and_fragment self af_packet =
      if ltb 0 self.m_m
      then (do
        (rs_block, self') ← protect self af_packet
        let max_payload_size = self'.m_num_chunks * paritybytes / (self'.m_m + 1)
        num_fragments ← ceil_div (length rs_block) max_payload_size
        fragment_size ← ceil_div (length rs_block) num_fragments
        ok (interleave rs_block num_fragments fragment_size, self'))
      else do
        num_fragments ← ceil_div (length af_packet) 1400
        fragment_size ← ceil_div (length af_packet) num_fragments
        ok (cut af_packet num_fragments fragment_size, self)

  unfoldable pub assemble : Pft → List ℕ → Result (List (List ℕ) × Pft)
  assemble self af_packet = do
    (fragments, self') ← protect_and_fragment self af_packet
    fec ← fec_fields self' af_packet
    ok (
      add_headers self'.m_pseq (length fragments) fec 0 fragments,
      record self' { m_pseq = u16 (self'.m_pseq + 1) },
    )

unfoldable pub override_pseq : Pft → ℕ → Pft
override_pseq self pseq = record self { m_pseq = pseq }
