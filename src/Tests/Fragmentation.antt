-- ===== src/Tests/Fragmentation.antt =====
-- lib/edioutput/PFT.cpp at a packet of five bytes in two chunks, with an encoder of zeros.
use odr_source_companion.Base.{
  ℕ, ◌*◌, ◌≤◌, List, [], ◌∷◌, length, replicate, some, ◌≡◌, refl, arith,
}
use odr_source_companion.Edi.Result.{ok}
use odr_source_companion.Edi.Pft.{Pft, ceil_div, interleave, cut, copy_run}
use odr_source_companion.Edi.Pft.Chunks.{Protected, protect_lem}
use odr_source_companion.Edi.Pft.Headers.{HeaderInRange}
use odr_source_companion.Edi.Pft.Payloads.{Interleaved, protect_and_fragment-Interleaved}
use odr_source_companion.Edi.Pft.Roundtrip.{IsReceived, receive_pft-assemble}

abbrev zeros : List ℕ → List ℕ
zeros chunk = replicate 48 0

length-zeros : (chunk : List ℕ) → length (zeros chunk) ≡ 48
length-zeros chunk = refl

abbrev af_bytes : List ℕ
af_bytes = 1 ∷ 2 ∷ 3 ∷ 4 ∷ 5 ∷ []

abbrev layer : ℕ → Pft
layer m = record { m_k = 3; m_m = m; m_pseq = 65535; m_num_chunks = 0 }

receive_pft-assemble_example : IsReceived zeros (layer 2) af_bytes
receive_pft-assemble_example =
    receive_pft-assemble zeros length-zeros (layer 2) af_bytes (omega arith) (omega arith)
      (omega arith) (omega arith) (omega arith) (omega arith)

protect_lem_example : Protected zeros (layer 2) af_bytes
protect_lem_example =
    protect_lem zeros length-zeros (layer 2) af_bytes (omega arith) (omega arith) (omega arith)

protected : Protected zeros (layer 2) af_bytes
protected =
    protect_lem zeros length-zeros (layer 2) af_bytes (omega arith) (omega arith) (omega arith)

protect_and_fragment-Interleaved_example : Interleaved zeros (layer 2) af_bytes protected
protect_and_fragment-Interleaved_example =
    protect_and_fragment-Interleaved zeros (layer 2) af_bytes (omega arith) (omega arith)
      (omega arith) protected

overprotected : Protected zeros (layer 96) af_bytes
overprotected =
    protect_lem zeros length-zeros (layer 96) af_bytes (omega arith) (omega arith) (omega arith)

overprotected_chunks : overprotected.chunks * 48 ≤ 96
overprotected_chunks =
    omega (arith, overprotected.fewest.least 2 (let h : 5 ≤ 2 * 3 = omega arith in h))

ceil_div_17_5 : ceil_div 17 5 ≡ ok 4
unfolding ceil_div
ceil_div_17_5 = refl

cut_3_2 : cut af_bytes 3 2 ≡ (1 ∷ 2 ∷ []) ∷ (3 ∷ 4 ∷ []) ∷ (5 ∷ []) ∷ []
unfolding cut copy_run
cut_3_2 = refl

interleave_2_3 : interleave af_bytes 2 3 ≡ (1 ∷ 3 ∷ 5 ∷ []) ∷ (2 ∷ 4 ∷ 0 ∷ []) ∷ []
unfolding interleave
interleave_2_3 = refl

header-HeaderInRange : HeaderInRange 65535 1 3 (some (3, 1)) (length af_bytes)
header-HeaderInRange = record {
  pseq_range = omega arith;
  findex_range = omega arith;
  fcount_range = omega arith;
  fec_range = omega arith;
  size_range = omega arith;
}
