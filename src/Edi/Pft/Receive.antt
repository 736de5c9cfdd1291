-- ===== src/Edi/Pft/Receive.antt =====
-- A receiver of all the PFT fragments of an AF packet after ETSI TS 102 821, 7: the independent
-- description of `PFT::Assemble`.
use odr_source_companion.Base.{
  ℕ, suc, ◌+◌, ◌-◌, ◌*◌, ◌/◌, ◌^◌, ◌≤◌, ◌<◌, ◌==◌, ◌&&◌, if◌then◌else◌, ==_iff, true, false, Bool,
  List, [], ◌∷◌, map, length, take, joined, All, Option, none, some, ◌≡◌, refl, ap, arith,
}
use odr_source_companion.Edi.Pft.{add_headers}
use odr_source_companion.Edi.Pft.Chunks.{receive_codewords}
use odr_source_companion.Edi.Pft.Fragments.{deinterleave}
use odr_source_companion.Edi.Pft.Headers.{
  Fragment, receive_pf, HeaderInRange, FecInRange, receive_pf-header,
}

unfoldable pub receive_all : List (List ℕ) → Option (List Fragment)
receive_all [] = some []
receive_all (frame ∷ frames) =
    let rest = receive_all frames in
    elim (receive_pf frame) [
      | none ↦ none
      | some fragment ↦ elim rest [ none ↦ none | some fragments ↦ some (fragment ∷ fragments) ]
    ]

abbrev pub same_fec : Option (ℕ × ℕ) → Option (ℕ × ℕ) → Bool
same_fec none none = true
same_fec none (some p) = false
same_fec (some p) none = false
same_fec (some (k, z)) (some (k', z')) = k == k' && z == z'

-- Every fragment of the packet is there, in order, and says what the first one says.
unfoldable pub in_order : Fragment → ℕ → List Fragment → Bool
in_order first i [] = i == first.fcount
in_order first i (fragment ∷ fragments) =
    fragment.pseq == first.pseq
    && (fragment.findex == i
        && (fragment.fcount == first.fcount
            && (same_fec fragment.fec first.fec && in_order first (suc i) fragments)))

abbrev pub payload_of : Fragment → List ℕ
payload_of fragment = fragment.payload

-- The packet's number and its bytes. Without protection the payloads are the packet; with it the
-- number of codewords is what the payloads have room for, and RSz bytes of padding are dropped.
unfoldable pub decode : (List ℕ → List ℕ) → ℕ → Option (ℕ × ℕ) → List (List ℕ) → Option (ℕ × List ℕ)
unfolding receive_codewords
decode rs_encode pseq none payloads = some (pseq, joined payloads)
decode rs_encode pseq (some (chunk_len, zero_pad)) payloads =
    let chunks = length (joined payloads) / (chunk_len + 48) in
    let block = deinterleave payloads (chunks * (chunk_len + 48)) in
    elim (receive_codewords rs_encode chunks chunk_len block) [
      | none ↦ none
      | some packet ↦ some (pseq, take (length packet - zero_pad) packet)
    ]

unfoldable put_together : (List ℕ → List ℕ) → List Fragment → Option (ℕ × List ℕ)
put_together rs_encode [] = none
put_together rs_encode (first ∷ others) =
    if in_order first 0 (first ∷ others)
    then decode rs_encode first.pseq first.fec (map payload_of (first ∷ others))
    else none

unfoldable pub receive_pft : (List ℕ → List ℕ) → List (List ℕ) → Option (ℕ × List ℕ)
unfolding put_together
receive_pft rs_encode frames = elim (receive_all frames) [
  | none ↦ none
  | some fragments ↦ put_together rs_encode fragments
]

-- The fragments that a receiver is to find.
abbrev numbered : ℕ → ℕ → Option (ℕ × ℕ) → ℕ → List (List ℕ) → List Fragment
numbered pseq fcount fec i [] = []
numbered pseq fcount fec i (payload ∷ payloads) =
    record { pseq = pseq; findex = i; fcount = fcount; fec = fec; payload = payload }
    ∷ numbered pseq fcount fec (suc i) payloads

receive_all-add_headers :
    (pseq fcount : ℕ) (fec : Option (ℕ × ℕ)) (i : ℕ) (payloads : List (List ℕ))
    → pseq < 2 ^ 16
    → fcount < 2 ^ 24
    → FecInRange fec
    → i + length payloads ≤ fcount
    → All (λ (payload : List ℕ). length payload < 2 ^ 14) payloads
    → receive_all (add_headers pseq fcount fec i payloads)
      ≡ some (numbered pseq fcount fec i payloads)
unfolding receive_all add_headers
receive_all-add_headers pseq fcount fec i [] hp hc hf hi sizes = refl
receive_all-add_headers pseq fcount fec i (payload ∷ payloads) hp hc hf hi sizes =
    let range : HeaderInRange pseq i fcount fec (length payload) = record {
      pseq_range = hp;
      findex_range = omega arith;
      fcount_range = hc;
      fec_range = hf;
      size_range = sizes.0;
    } in
    rw
      (
        receive_pf-header pseq i fcount fec payload range,
        receive_all-add_headers pseq fcount fec (suc i) payloads hp hc hf (omega arith) sizes.1,
        receive_all,
      )
      refl

same_fec_refl : (fec : Option (ℕ × ℕ)) → same_fec fec fec ≡ true
same_fec_refl none = refl
same_fec_refl (some (k, z)) = rw ((==_iff k k).1 refl, (==_iff z z).1 refl) refl

in_order-numbered :
    (first : Fragment) (i : ℕ) (payloads : List (List ℕ))
    → i + length payloads ≡ first.fcount
    → in_order first i (numbered first.pseq first.fcount first.fec i payloads) ≡ true
unfolding in_order
in_order-numbered first i [] h = (==_iff i first.fcount).1 (omega arith)
in_order-numbered first i (payload ∷ payloads) h =
    rw
      (
        (==_iff first.pseq first.pseq).1 refl,
        (==_iff i i).1 refl,
        (==_iff first.fcount first.fcount).1 refl,
        same_fec_refl first.fec,
      )
      (in_order-numbered first (suc i) payloads (omega arith))

map-numbered :
    (pseq fcount : ℕ) (fec : Option (ℕ × ℕ)) (i : ℕ) (payloads : List (List ℕ))
    → map payload_of (numbered pseq fcount fec i payloads) ≡ payloads
map-numbered pseq fcount fec i [] = refl
map-numbered pseq fcount fec i (payload ∷ payloads) =
    ap (λ (l : List (List ℕ)). payload ∷ l) (map-numbered pseq fcount fec (suc i) payloads)

-- Headers that have room for their numbers are read back, and the payloads are decoded.
pub receive_pft-add_headers :
    (rs_encode : List ℕ → List ℕ) (pseq : ℕ) (fec : Option (ℕ × ℕ)) (payloads : List (List ℕ))
    → pseq < 2 ^ 16
    → 0 < length payloads
    → length payloads < 2 ^ 24
    → FecInRange fec
    → All (λ (payload : List ℕ). length payload < 2 ^ 14) payloads
    → receive_pft rs_encode (add_headers pseq (length payloads) fec 0 payloads)
      ≡ decode rs_encode pseq fec payloads
unfolding receive_pft put_together
receive_pft-add_headers rs_encode pseq fec [] hp pos hc hf sizes = absurd (omega arith)
receive_pft-add_headers rs_encode pseq fec (payload ∷ payloads) hp pos hc hf sizes =
    let fcount = length (payload ∷ payloads) in
    let first : Fragment = record {
      pseq = pseq;
      findex = 0;
      fcount = fcount;
      fec = fec;
      payload = payload;
    } in
    let read =
      receive_all-add_headers pseq fcount fec 0 (payload ∷ payloads) hp hc hf (omega arith) sizes in
    let ordered = in_order-numbered first 0 (payload ∷ payloads) (omega arith) in
    let same = map-numbered pseq fcount fec 1 payloads in rw (read, ordered, same, receive_pft) refl
