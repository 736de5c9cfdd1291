-- ===== src/AacDecoder/Superframe.antt =====
-- What `decode_frame` makes of a superframe.
use odr_source_companion.Base.{
  ℕ, suc, ◌+◌, ◌<◌, not, if◌then◌else◌, inl, inr, List, [], ◌∷◌, ◌++◌, length, length-append,
  append-nil, if_false, ◌≡◌, refl, ap, sym, ◌∙◌, subst, arith,
}
use odr_source_companion.AacDecoder.{
  Attempt, gives, fails, au_ordering, ◌>>=◌, flags_of, num_aus, in_order, AacDecoder, set_up,
  decode_units, decode_frame,
}
use odr_source_companion.AacDecoder.Units.{
  AccessUnit, units_bytes, starts_from, decode_all, decode_units-all, bind-cong,
}
use odr_source_companion.AacDecoder.Layout.{
  Layout, header_bytes, superframe, length-unit, units-cases, starts_from-in_order, read_starts,
  two_units, three_units, four_units,
}

-- A number of units other than six, in a superframe that twelve bits can address.
pub record IsSuperframe (l : Layout) : Type 0 where
  pub as_many : length l.units ≡ num_aus (flags_of l.flags)
  pub not_six : length l.units < 6
  pub pad_range : l.pad < 16
  pub short : length (superframe l) < 4000

two_of :
    (us : List AccessUnit) → length us ≡ 2 → (u : AccessUnit) × (v : AccessUnit) × (us ≡ u ∷ v ∷ [])
two_of (u ∷ v ∷ []) h = (u, v, refl)
two_of [] h = absurd (omega arith)
two_of (u ∷ []) h = absurd (omega arith)
two_of (u ∷ v ∷ w ∷ us) h = absurd (omega arith)

more_of :
    (n : ℕ) (us : List AccessUnit)
    → length us ≡ suc n
    → (u : AccessUnit) × (vs : List AccessUnit) × (length vs ≡ n) × (us ≡ u ∷ vs)
more_of n [] h = absurd (omega (arith, h))
more_of n (u ∷ us) h = (u, us, omega (arith, h), refl)

three_of :
    (us : List AccessUnit)
    → length us ≡ 3
    → (u : AccessUnit) × (v : AccessUnit) × (w : AccessUnit) × (us ≡ u ∷ v ∷ w ∷ [])
three_of us h =
    let (u, vs, k, e) = more_of 2 us h in
    let (v, w, d) = two_of vs k in (u, v, w, e ∙ ap (λ l. u ∷ l) d)

four_of :
    (us : List AccessUnit)
    → length us ≡ 4
    → (u : AccessUnit) × (v : AccessUnit) × (w : AccessUnit) × (x : AccessUnit) × (us
        ≡ u ∷ v ∷ w ∷ x ∷ [])
four_of us h =
    let (u, vs, k, e) = more_of 3 us h in
    let (v, w, x, d) = three_of vs k in (u, v, w, x, e ∙ ap (λ l. u ∷ l) d)

-- The two first of three units and more are short.
first_two-short :
    (header : List ℕ) (u v : AccessUnit) (us : List AccessUnit)
    → length (header ++ units_bytes (u ∷ v ∷ us)) < 4000
    → length u.body + length v.body < 4000
first_two-short header u v us h = omega (
  arith,
  length-append {0} header (units_bytes (u ∷ v ∷ us)),
  length-unit u (v ∷ us),
  length-unit v us,
)

header-starts :
    (l : Layout)
    → IsSuperframe l
    → read_starts l ≡ gives (starts_from (length (header_bytes l)) l.units)
header-starts l r = elim (units-cases (flags_of l.flags)) [
  | inl (n, first) ↦
      let (u, v, e) = two_of l.units (r.as_many ∙ n) in
      subst Read (sym e) (two_units l.fire_high l.fire_low l.flags l.pad u v n first r.pad_range)
  | inr (inl (n, first)) ↦
      let (u, v, w, e) = three_of l.units (r.as_many ∙ n) in
      subst Read (sym e) (
        three_units l.fire_high l.fire_low l.flags l.pad u v w n first (
          first_two-short (header_bytes (with_units (u ∷ v ∷ w ∷ []))) u v (w ∷ [])
            (subst Short e r.short)))
  | inr (inr (inl (n, first))) ↦
      let (u, v, w, x, e) = four_of l.units (r.as_many ∙ n) in
      subst Read (sym e) (
        four_units l.fire_high l.fire_low l.flags l.pad u v w x n first
          (first_two-short (header_bytes (with_units (u ∷ v ∷ w ∷ x ∷ []))) u v (w ∷ x ∷ [])
            (subst Short e r.short))
          r.pad_range)
  | inr (inr (inr n)) ↦ absurd (omega (arith, n, r.as_many, r.not_six))
]
  where
    with_units : List AccessUnit → Layout
    with_units us = record {
      fire_high = l.fire_high;
      fire_low = l.fire_low;
      flags = l.flags;
      pad = l.pad;
      units = us;
    }

    Short : List AccessUnit → Type 0
    Short us = length (superframe (with_units us)) < 4000

    Read : List AccessUnit → Type 0
    Read us =
        read_starts (with_units us) ≡ gives (starts_from (length (header_bytes (with_units us))) us)

module _ {Handle : Type 0} (config_raw : Handle → List ℕ → ℕ × Handle)
    (fill : Handle → List ℕ → ℕ × ℕ × Handle) (decode : Handle → List ℕ → ℕ × List ℕ × Handle) where
  -- A superframe of two, three or four access units: `decode_frame` sets the decoder up for its flags
  -- if it is not, and then gives it the units in their order, each without its CRC, up to the first
  -- that fails; nothing is read outside.
  pub decode_frame-superframe :
      (self : AacDecoder Handle) (l : Layout)
      → IsSuperframe l
      → decode_frame config_raw fill decode self (superframe l) (length (superframe l)) ≡ (
          set_up config_raw fill decode self (flags_of l.flags) >>= λ self'.
          decode_all config_raw fill decode self' l.units)
  unfolding decode_frame
  decode_frame-superframe self l r =
      let f = flags_of l.flags in
      let start = length (header_bytes l) in
      let ordered = starts_from-in_order start l.units in
      let data' = superframe l in
      let rest : List ℕ → Attempt (AacDecoder Handle) = λ starts.
        if not (in_order starts)
        then fails au_ordering
        else (set_up config_raw fill decode self f >>= λ self'.
            decode_units config_raw fill decode self' data' starts) in
      ap (λ (o : Attempt (List ℕ)). o >>= rest) (header-starts l r)
      ∙ if_false (not (in_order (starts_from start l.units))) _ _ (ap not ordered)
      ∙ bind-cong (set_up config_raw fill decode self f)
          (λ self'. decode_units config_raw fill decode self' data' (starts_from start l.units))
          (λ self'. decode_all config_raw fill decode self' l.units)
          (λ self'.
            ap
              (λ (bytes : List ℕ).
                decode_units config_raw fill decode self' (header_bytes l ++ bytes)
                  (starts_from start l.units))
              (sym (append-nil (units_bytes l.units)))
            ∙ decode_units-all config_raw fill decode self' (header_bytes l) [] l.units)
