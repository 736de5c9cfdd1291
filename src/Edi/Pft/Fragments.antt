-- ===== src/Edi/Pft/Fragments.antt =====
-- The two ways PFT::ProtectAndFragment cuts a block, against receivers that put it together.
use odr_source_companion.Base.{
  ℕ, zero, suc, ◌+◌, ◌*◌, ◌/◌, ◌%◌, ◌≤◌, ◌<◌, ltb, if◌then◌else◌, ◌≡◌, refl, ap, sym, ◌∙◌, arith,
  true, false, List, [], ◌∷◌, length, take, drop, get_or, tabulate, joined, All, length-take,
  length-tabulate, take-all, drop-all, get_or-tabulate, get_or_ext, joined-runs,
}
use mathlib.Core.Path.{fun_ext}
use native.Mathlib.Decide.{dec_lt}
use native.Mathlib.Nat.{div-add-mod, mod-lt, lt_of_mul-lt-mul_right}
use odr_source_companion.Edi.Pft.{interleave, copy_run, cut}

-- A run that starts inside the packet or at its end.
copy_run-take : (n ix : ℕ) (packet : List ℕ) → copy_run n packet ix ≡ take n (drop ix packet)
unfolding copy_run
copy_run-take zero ix packet = refl
copy_run-take (suc n) ix packet = elim (dec_lt ix (length packet)) [
  | yes h ↦
      let inside : ltb ix (length packet) ≡ true = ground arith in
      let next : ix + 1 ≡ suc ix = omega arith in
      rw (inside, copy_run-take n (ix + 1) packet, next) (sym (take_drop ix packet h))
  | no h ↦
      let outside : ltb ix (length packet) ≡ false = ground arith in
      rw (outside) (sym (ap (take (suc n)) (drop-all ix packet (omega (arith, h)))))
]
  where
    take_drop :
        (i : ℕ) (xs : List ℕ)
        → i < length xs
        → take (suc n) (drop i xs) ≡ get_or xs i 0 ∷ take n (drop (suc i) xs)
    take_drop i [] h = absurd (omega arith)
    take_drop zero (x ∷ xs) h = refl
    take_drop (suc i) (x ∷ xs) h = take_drop i xs (omega arith)

-- Fragments that hold the packet give it back, one after the other.
pub joined-cut :
    (packet : List ℕ) (count size : ℕ)
    → length packet ≤ count * size
    → joined (cut packet count size) ≡ packet
unfolding cut
joined-cut packet count size h =
    ap (λ (f : ℕ → List ℕ). joined (tabulate f count 0))
      (fun_ext (λ i. copy_run-take size (i * size) packet))
    ∙ joined-runs size count 0 packet
    ∙ ap (λ (t : ℕ). take (count * size) (drop t packet)) (let e : 0 * size ≡ 0 = omega arith in e)
    ∙ take-all (count * size) packet h

pub length-cut : (packet : List ℕ) (count size : ℕ) → length (cut packet count size) ≡ count
unfolding cut
length-cut packet count size = length-tabulate _ count 0

-- No fragment is longer than the size it was cut to.
pub cut-sizes :
    (packet : List ℕ) (size count : ℕ)
    → All (λ (fragment : List ℕ). length fragment ≤ size) (cut packet count size)
unfolding cut
cut-sizes packet size count = go count 0
  where
    go :
        (m c : ℕ)
        → All
            (λ (fragment : List ℕ). length fragment ≤ size)
            (tabulate (λ i. copy_run size packet (i * size)) m c)
    go zero c = tt
    go (suc m) c =
        let e = ap length (copy_run-take size (c * size) packet) in
        (omega (arith, e, length-take {0} size (drop (c * size) packet)), go m (suc c))

-- A receiver that reads byte `t` of a block from fragment `t % count`.
unfoldable interleaved_byte : List (List ℕ) → ℕ → ℕ
interleaved_byte fragments t =
    get_or (get_or fragments (t % length fragments) []) (t / length fragments) 0

unfoldable pub deinterleave : List (List ℕ) → ℕ → List ℕ
unfolding interleaved_byte
deinterleave fragments size = tabulate (interleaved_byte fragments) size 0

pub length-interleave :
    (block : List ℕ) (count size : ℕ) → length (interleave block count size) ≡ count
unfolding interleave
length-interleave block count size = length-tabulate _ count 0

-- Fragments that hold the block give each of its bytes back.
interleaved_byte-interleave :
    (block : List ℕ) (count size t : ℕ)
    → 0 < count
    → length block ≤ size * count
    → t < length block
    → interleaved_byte (interleave block count size) t ≡ get_or block t 0
unfolding interleave interleaved_byte
interleaved_byte-interleave block count size t pos fits h =
    let parts = div-add-mod t count in
    let r = mod-lt t pos in
    let q : t / count < size =
      lt_of_mul-lt-mul_right count {m = t / count} {n = size} (omega (arith, parts)) in
    let back : t / count * count + t % count ≡ t = omega (arith, parts) in
    let inside : ltb t (length block) ≡ true = ground arith in
    let row : 0 + t % count ≡ t % count = omega arith in
    let column : 0 + t / count ≡ t / count = omega arith in
    ap (λ (c : ℕ). get_or (get_or (interleave block count size) (t % c) []) (t / c) 0)
      (length-interleave block count size)
    ∙ ap (λ (l : List ℕ). get_or l (t / count) 0) (get_or-tabulate _ count 0 (t % count) [] r)
    ∙ get_or-tabulate _ size 0 (t / count) 0 q
    ∙ rw (row, column, back, inside) refl

-- Fragments that hold the block give it back.
pub deinterleave-interleave :
    (block : List ℕ) (count size : ℕ)
    → 0 < count
    → length block ≤ size * count
    → deinterleave (interleave block count size) (length block) ≡ block
unfolding deinterleave
deinterleave-interleave block count size pos fits =
    let read = interleaved_byte (interleave block count size) in
    let n = length block in
    let same_length : length (tabulate read n 0) ≡ n = length-tabulate read n 0 in
    get_or_ext 0 (tabulate read n 0) block same_length (λ t p.
      let h : t < n = omega (arith, p, same_length) in
      let start : 0 + t ≡ t = omega arith in
      get_or-tabulate read n 0 t 0 h
      ∙ ap read start
      ∙ interleaved_byte-interleave block count size t pos fits h)

-- All the fragments of an interleaved block have the same size.
pub interleave-sizes :
    (block : List ℕ) (count size : ℕ)
    → All (λ (fragment : List ℕ). length fragment ≡ size) (interleave block count size)
unfolding interleave
interleave-sizes block count size = go count 0
  where
    byte : ℕ → ℕ → ℕ
    byte i j = if ltb (j * count + i) (length block) then get_or block (j * count + i) 0 else 0

    go :
        (m c : ℕ)
        → All
            (λ (fragment : List ℕ). length fragment ≡ size)
            (tabulate (λ i. tabulate (byte i) size 0) m c)
    go zero c = tt
    go (suc m) c = (length-tabulate (byte c) size 0, go m (suc c))
