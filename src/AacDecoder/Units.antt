-- ===== src/AacDecoder/Units.antt =====
-- The loop over the access units of a superframe.
use odr_source_companion.Base.{
  ℕ, ◌+◌, ◌-◌, ◌≤◌, ltb, List, [], ◌∷◌, ◌++◌, length, length-append, take, take-append, drop,
  drop-append, append_assoc, if_false, le→ltb, ◌≡◌, refl, ap, sym, ◌∙◌, arith,
}
use odr_source_companion.AacDecoder.{
  Attempt, gives, fails, ◌>>=◌, AacDecoder, decode_au, decode_units,
}

-- An access unit with its CRC behind it.
pub record AccessUnit : Type 0 where
  pub body : List ℕ
  pub crc_high : ℕ
  pub crc_low : ℕ

abbrev pub unit_bytes : AccessUnit → List ℕ
unit_bytes u = u.body ++ u.crc_high ∷ u.crc_low ∷ []

abbrev pub units_bytes : List AccessUnit → List ℕ
units_bytes [] = []
units_bytes (u ∷ us) = unit_bytes u ++ units_bytes us

-- Where the units start, from `s` on, and where the last one ends.
abbrev pub starts_from : ℕ → List AccessUnit → List ℕ
starts_from s [] = s ∷ []
starts_from s (u ∷ us) = s ∷ starts_from (s + (length u.body + 2)) us

starts_from-head : (s : ℕ) (us : List AccessUnit) → (rest : List ℕ) × (starts_from s us ≡ s ∷ rest)
starts_from-head s [] = ([], refl)
starts_from-head s (u ∷ us) = (starts_from (s + (length u.body + 2)) us, refl)

pub bind-cong :
    {Value Next : Type 0} (o : Attempt Value) (f g : Value → Attempt Next)
    → ((v : Value) → f v ≡ g v)
    → (o >>= f) ≡ (o >>= g)
bind-cong (fails e) f g h = refl
bind-cong (gives v) f g h = h v

-- The body of the unit behind `before`.
unit_cut :
    (before : List ℕ) (u : AccessUnit) (rest : List ℕ) (n : ℕ)
    → n ≡ length u.body
    → take n (drop (length before) (before ++ (unit_bytes u ++ rest))) ≡ u.body
unit_cut before u rest n e =
    ap (take n) (
      drop-append before (unit_bytes u ++ rest) (length before) refl
      ∙ append_assoc u.body (u.crc_high ∷ u.crc_low ∷ []) rest)
    ∙ take-append u.body (u.crc_high ∷ u.crc_low ∷ rest) n e

module _ {Handle : Type 0} (config_raw : Handle → List ℕ → ℕ × Handle)
    (fill : Handle → List ℕ → ℕ × ℕ × Handle) (decode : Handle → List ℕ → ℕ × List ℕ × Handle) where
  -- The bodies, one after the other.
  abbrev pub decode_all : AacDecoder Handle → List AccessUnit → Attempt (AacDecoder Handle)
  decode_all self [] = gives self
  decode_all self (u ∷ us) =
      decode_au config_raw fill decode self u.body >>= λ self'. decode_all self' us

  one_unit :
      (self : AacDecoder Handle) (data' rs : List ℕ) (s t : ℕ)
      → s + 2 ≤ t
      → decode_units config_raw fill decode self data' (s ∷ t ∷ rs) ≡ (
          decode_au config_raw fill decode self (take (t - s - 2) (drop s data')) >>= λ self'.
          decode_units config_raw fill decode self' data' (t ∷ rs))
  unfolding decode_units
  one_unit self data' rs s t h = if_false (ltb t (s + 2)) _ _ (le→ltb t (s + 2) h)

  pub decode_units-all :
      (self : AacDecoder Handle) (before rest : List ℕ) (us : List AccessUnit)
      → decode_units config_raw fill decode self
          (before ++ (units_bytes us ++ rest))
          (starts_from (length before) us)
        ≡ decode_all self us
  unfolding decode_units
  decode_units-all self before rest [] = refl
  decode_units-all self before rest (u ∷ us) =
      let data' = before ++ (units_bytes (u ∷ us) ++ rest) in
      let s = length before in
      let t = s + (length u.body + 2) in
      let (rs, starts) = starts_from-head t us in
      let same : data' ≡ (before ++ unit_bytes u) ++ (units_bytes us ++ rest) =
        ap (λ (l : List ℕ). before ++ l) (append_assoc (unit_bytes u) (units_bytes us) rest)
        ∙ sym (append_assoc before (unit_bytes u) (units_bytes us ++ rest)) in
      let next : length (before ++ unit_bytes u) ≡ t = omega (
        arith,
        length-append {0} before (unit_bytes u),
        length-append {0} u.body (u.crc_high ∷ u.crc_low ∷ []),
      ) in
      let later : (self' : AacDecoder Handle)
          → decode_units config_raw fill decode self' data' (t ∷ rs) ≡ decode_all self' us =
        λ self'.
          ap (decode_units config_raw fill decode self' data') (sym starts)
          ∙ ap (λ (n : ℕ). decode_units config_raw fill decode self' data' (starts_from n us))
              (sym next)
          ∙ ap
              (λ (l : List ℕ).
                decode_units config_raw fill decode self' l
                  (starts_from (length (before ++ unit_bytes u)) us))
              same
          ∙ decode_units-all self' (before ++ unit_bytes u) rest us in
      ap (λ (l : List ℕ). decode_units config_raw fill decode self data' (s ∷ l)) starts
      ∙ one_unit self data' rs s t (omega arith)
      ∙ ap
          (λ (l : List ℕ). decode_au config_raw fill decode self l >>= λ self'.
            decode_units config_raw fill decode self' data' (t ∷ rs))
          (ap (λ (l : List ℕ). take (t - s - 2) (drop s (before ++ l)))
              (append_assoc (unit_bytes u) (units_bytes us) rest)
            ∙ unit_cut before u (units_bytes us ++ rest) (t - s - 2) (omega arith))
      ∙ bind-cong (decode_au config_raw fill decode self u.body)
          (λ self'. decode_units config_raw fill decode self' data' (t ∷ rs))
          (λ self'. decode_all self' us) later
