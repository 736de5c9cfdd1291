-- ===== src/AacDecoder/Layout.antt =====
-- A superframe as an encoder lays it out after ETSI TS 102 563, 5.2, and the starts that are read.
use odr_source_companion.Base.{
  ℕ, ◌+◌, ◌*◌, ◌/◌, ◌%◌, ◌<◌, bit_and, bit_or, ◌<<<◌, ◌>>>◌, ◌==◌, ==_iff, ◌&&◌, Bool, true, false,
  inl, inr, ◌⊎◌, List, [], ◌∷◌, ◌++◌, length, length-append, if_true, if_false, lt→ltb, ◌≡◌, refl,
  ap, ◌∙◌, arith,
}
use odr_source_companion.Base.Bits.{bit_and_ones, bit_or_disjoint}
use odr_source_companion.AacDecoder.{
  Attempt, gives, Flags, flags_of, num_aus, first_start, au_starts, in_order,
}
use odr_source_companion.AacDecoder.Units.{AccessUnit, units_bytes, starts_from}

-- The starts but the first, twelve bits each, and what fills up the last byte.
abbrev pub start_bytes : ℕ → List ℕ → List ℕ
start_bytes pad [] = []
start_bytes pad (s ∷ []) = (s / 16) ∷ (s % 16 * 16 + pad) ∷ []
start_bytes pad (s ∷ t ∷ starts) =
    (s / 16) ∷ (s % 16 * 16 + t / 256) ∷ (t % 256) ∷ start_bytes pad starts

-- The starts between the first one and the end.
abbrev pub inner_starts : ℕ → List AccessUnit → List ℕ
inner_starts s [] = []
inner_starts s (u ∷ []) = []
inner_starts s (u ∷ v ∷ us) = let t = s + (length u.body + 2) in t ∷ inner_starts t (v ∷ us)

-- The Fire code, the flags, the starts of the access units, and the units.
pub record Layout : Type 0 where
  pub fire_high : ℕ
  pub fire_low : ℕ
  pub flags : ℕ
  pub pad : ℕ
  pub units : List AccessUnit

abbrev pub header_bytes : Layout → List ℕ
header_bytes l =
    l.fire_high
    ∷ l.fire_low
    ∷ l.flags
    ∷ start_bytes l.pad (inner_starts (first_start (flags_of l.flags)) l.units)

abbrev pub superframe : Layout → List ℕ
superframe l = header_bytes l ++ units_bytes l.units

read_high : (s low : ℕ) → low < 16 → bit_or ((s / 16) <<< 4) ((s % 16 * 16 + low) >>> 4) ≡ s
read_high s low h =
    let part : (s % 16 * 16 + low) >>> 4 ≡ s % 16 = omega (arith, h) in
    ap (bit_or ((s / 16) <<< 4)) part
    ∙ bit_or_disjoint 4 (s / 16) (s % 16) (omega arith)
    ∙ omega arith

read_low : (s t : ℕ) → t < 4096 → bit_or (bit_and (s % 16 * 16 + t / 256) 0x0F <<< 8) (t % 256) ≡ t
read_low s t h =
    let part : bit_and (s % 16 * 16 + t / 256) 0x0F ≡ t / 256 =
      bit_and_ones 4 (s % 16 * 16 + t / 256) 0x0F refl ∙ omega (arith, h) in
    ap (λ (n : ℕ). bit_or (n <<< 8) (t % 256)) part
    ∙ bit_or_disjoint 8 (t / 256) (t % 256) (omega arith)
    ∙ omega arith

-- The number of access units and the first start, for each rate.
pub units-cases :
    (f : Flags)
    → ((num_aus f ≡ 2) × (first_start f ≡ 5))
      ⊎ (((num_aus f ≡ 3) × (first_start f ≡ 6))
          ⊎ (((num_aus f ≡ 4) × (first_start f ≡ 8)) ⊎ (num_aus f ≡ 6)))
units-cases f = go f.dac_rate f.sbr_flag refl refl
  where
    go :
        (d s : Bool)
        → f.dac_rate ≡ d
        → f.sbr_flag ≡ s
        → ((num_aus f ≡ 2) × (first_start f ≡ 5))
          ⊎ (((num_aus f ≡ 3) × (first_start f ≡ 6))
              ⊎ (((num_aus f ≡ 4) × (first_start f ≡ 8)) ⊎ (num_aus f ≡ 6)))
    go false true d s = inl (rw (d, s) (refl, refl))
    go true true d s = inr (inl (rw (d, s) (refl, refl)))
    go false false d s = inr (inr (inl (rw (d, s) (refl, refl))))
    go true false d s = inr (inr (inr (rw (d, s) refl)))

au_starts-two :
    (f : Flags) (a b c s low : ℕ) (rest : List ℕ) (len : ℕ)
    → num_aus f ≡ 2
    → low < 16
    → au_starts f (a ∷ b ∷ c ∷ (s / 16) ∷ (s % 16 * 16 + low) ∷ rest) len
      ≡ gives (first_start f ∷ s ∷ len ∷ [])
unfolding au_starts
au_starts-two f a b c s low rest len n h =
    if_true (num_aus f == 2) _ _ ((==_iff _ _).1 n)
    ∙ ap (λ (x : ℕ). gives (first_start f ∷ x ∷ len ∷ [])) (read_high s low h)

au_starts-three :
    (f : Flags) (a b c s t : ℕ) (rest : List ℕ) (len : ℕ)
    → num_aus f ≡ 3
    → t < 4096
    → au_starts f (a ∷ b ∷ c ∷ (s / 16) ∷ (s % 16 * 16 + t / 256) ∷ (t % 256) ∷ rest) len
      ≡ gives (first_start f ∷ s ∷ t ∷ len ∷ [])
unfolding au_starts
au_starts-three f a b c s t rest len n h =
    let other : (num_aus f == 2) ≡ false = ground (arith, n) in
    if_false (num_aus f == 2) _ _ other
    ∙ if_true (num_aus f == 3) _ _ ((==_iff _ _).1 n)
    ∙ rw (read_high s (t / 256) (omega (arith, h)), read_low s t h) refl

au_starts-four :
    (f : Flags) (a b c s t r low : ℕ) (rest : List ℕ) (len : ℕ)
    → num_aus f ≡ 4
    → t < 4096
    → low < 16
    → au_starts f
        (a
          ∷ b
          ∷ c
          ∷ (s / 16)
          ∷ (s % 16 * 16 + t / 256)
          ∷ (t % 256)
          ∷ (r / 16)
          ∷ (r % 16 * 16 + low)
          ∷ rest)
        len
      ≡ gives (first_start f ∷ s ∷ t ∷ r ∷ len ∷ [])
unfolding au_starts
au_starts-four f a b c s t r low rest len n h l =
    let two : (num_aus f == 2) ≡ false = ground (arith, n) in
    let three : (num_aus f == 3) ≡ false = ground (arith, n) in
    if_false (num_aus f == 2) _ _ two
    ∙ if_false (num_aus f == 3) _ _ three
    ∙ if_true (num_aus f == 4) _ _ ((==_iff _ _).1 n)
    ∙ rw (read_high s (t / 256) (omega (arith, h)), read_low s t h, read_high r low l) refl

pub starts_from-in_order : (s : ℕ) (us : List AccessUnit) → in_order (starts_from s us) ≡ true
starts_from-in_order s [] = refl
starts_from-in_order s (u ∷ []) =
    ap (λ (b : Bool). b && true) (lt→ltb s (s + (length u.body + 2)) (omega arith))
starts_from-in_order s (u ∷ v ∷ us) =
    ap (λ (b : Bool). b && in_order (starts_from (s + (length u.body + 2)) (v ∷ us)))
      (lt→ltb s (s + (length u.body + 2)) (omega arith))
    ∙ starts_from-in_order (s + (length u.body + 2)) (v ∷ us)

pub length-unit :
    (u : AccessUnit) (us : List AccessUnit)
    → length (units_bytes (u ∷ us)) ≡ length u.body + 2 + length (units_bytes us)
length-unit u us = omega (
  arith,
  length-append {0} (u.body ++ u.crc_high ∷ u.crc_low ∷ []) (units_bytes us),
  length-append {0} u.body (u.crc_high ∷ u.crc_low ∷ []),
)

-- Layouts of two, three and four units: the starts that are read are those of the units.
abbrev pub read_starts : Layout → Attempt (List ℕ)
read_starts l = au_starts (flags_of l.flags) (superframe l) (length (superframe l))

pub two_units :
    (a b flags pad : ℕ) (u v : AccessUnit)
    → num_aus (flags_of flags) ≡ 2
    → first_start (flags_of flags) ≡ 5
    → pad < 16
    → read_starts
        (record { fire_high = a; fire_low = b; flags = flags; pad = pad; units = u ∷ v ∷ [] })
      ≡ gives (starts_from 5 (u ∷ v ∷ []))
two_units a b flags pad u v n first h =
    let l : Layout = record {
      fire_high = a;
      fire_low = b;
      flags = flags;
      pad = pad;
      units = u ∷ v ∷ [];
    } in
    let f = flags_of flags in
    let s = first_start f + (length u.body + 2) in
    let second : s ≡ 5 + (length u.body + 2) = omega (arith, first) in
    let end : length (superframe l) ≡ 5 + (length u.body + 2) + (length v.body + 2) =
      omega (arith, length-unit u (v ∷ []), length-unit v []) in
    au_starts-two f a b flags s pad (units_bytes (u ∷ v ∷ [])) (length (superframe l)) n h ∙ cc

pub three_units :
    (a b flags pad : ℕ) (u v w : AccessUnit)
    → num_aus (flags_of flags) ≡ 3
    → first_start (flags_of flags) ≡ 6
    → length u.body + length v.body < 4000
    → read_starts
        (record { fire_high = a; fire_low = b; flags = flags; pad = pad; units = u ∷ v ∷ w ∷ [] })
      ≡ gives (starts_from 6 (u ∷ v ∷ w ∷ []))
three_units a b flags pad u v w n first h =
    let l : Layout = record {
      fire_high = a;
      fire_low = b;
      flags = flags;
      pad = pad;
      units = u ∷ v ∷ w ∷ [];
    } in
    let f = flags_of flags in
    let s = first_start f + (length u.body + 2) in
    let t = s + (length v.body + 2) in
    let second : s ≡ 6 + (length u.body + 2) = omega (arith, first) in
    let third : t ≡ 6 + (length u.body + 2) + (length v.body + 2) = omega (arith, first) in
    let end : length (superframe l)
        ≡ 6 + (length u.body + 2) + (length v.body + 2) + (length w.body + 2) =
      omega (arith, length-unit u (v ∷ w ∷ []), length-unit v (w ∷ []), length-unit w []) in
    au_starts-three f a b flags s t (units_bytes (u ∷ v ∷ w ∷ [])) (length (superframe l)) n
      (omega (arith, third, h))
    ∙ cc

pub four_units :
    (a b flags pad : ℕ) (u v w x : AccessUnit)
    → num_aus (flags_of flags) ≡ 4
    → first_start (flags_of flags) ≡ 8
    → length u.body + length v.body < 4000
    → pad < 16
    → read_starts (record {
      fire_high = a;
      fire_low = b;
      flags = flags;
      pad = pad;
      units = u ∷ v ∷ w ∷ x ∷ [];
    })
      ≡ gives (starts_from 8 (u ∷ v ∷ w ∷ x ∷ []))
four_units a b flags pad u v w x n first h p =
    let l : Layout = record {
      fire_high = a;
      fire_low = b;
      flags = flags;
      pad = pad;
      units = u ∷ v ∷ w ∷ x ∷ [];
    } in
    let f = flags_of flags in
    let s = first_start f + (length u.body + 2) in
    let t = s + (length v.body + 2) in
    let r = t + (length w.body + 2) in
    let second : s ≡ 8 + (length u.body + 2) = omega (arith, first) in
    let third : t ≡ 8 + (length u.body + 2) + (length v.body + 2) = omega (arith, first) in
    let fourth : r ≡ 8 + (length u.body + 2) + (length v.body + 2) + (length w.body + 2) =
      omega (arith, first) in
    let end : length (superframe l)
        ≡ 8
          + (length u.body + 2)
          + (length v.body + 2)
          + (length w.body + 2)
          + (length x.body + 2) =
      omega (
        arith,
        length-unit u (v ∷ w ∷ x ∷ []),
        length-unit v (w ∷ x ∷ []),
        length-unit w (x ∷ []),
        length-unit x [],
      ) in
    au_starts-four f a b flags s t r pad (units_bytes (u ∷ v ∷ w ∷ x ∷ [])) (length (superframe l))
      n (omega (arith, third, h)) p
    ∙ cc
