-- ===== src/ClockTai/Selection/Choice.antt =====
-- What get_valid_offset selects.
use odr_source_companion.Base.{
  ℕ, if_true, if_false, Bool, true, false, ◌&&◌, Bool-cases, Option-cases, inl, inr, ◌⊎◌,
  if◌then◌else◌, ap, List, [], ◌∷◌, ◌++◌, All, append_assoc, append-nil, Option, none, some, ◌≡◌,
  refl, sym, ◌∙◌, subst,
}
use odr_source_companion.Base.Int.{◌≤ℤ◌}
use odr_source_companion.ClockTai.Bulletin.{BulletinState, Bulletin, usable, state}
use odr_source_companion.ClockTai.Selection.{
  Environment, Selection, download_from_url, Tried, found, collected, try_urls, first_valid, sort,
  take_expired, after_urls, cache_bulletin, get_valid_offset,
}
use odr_source_companion.ClockTai.Selection.Order.{expiry, In, IsBest, first_valid-sort}

-- The bulletins that the URLs give.
abbrev pub downloaded : Environment → List (List ℕ) → List Bulletin
downloaded env [] = []
downloaded env (url ∷ urls) = elim (download_from_url env url) [
  | none ↦ downloaded env urls
  | some b ↦ b ∷ downloaded env urls
]

abbrev pub candidates : Environment → List (List ℕ) → Bulletin → List Bulletin
candidates env urls m_bulletin = m_bulletin ∷ cache_bulletin env ∷ downloaded env urls

abbrev pub IsUnusable : Environment → Bulletin → Type 0
IsUnusable env b = usable env.now (state env.now b) ≡ false

-- The first one that is usable.
abbrev pub first_usable : Environment → List Bulletin → Option Bulletin
first_usable env [] = none
first_usable env (b ∷ bs) = if usable env.now (state env.now b) then some b else first_usable env bs

-- Nothing is selected only if no candidate is valid. What is selected is the state of the bulletin
-- that is current from now on, which is valid and one of the candidates: the first usable one of
-- them; or no candidate is usable, and none that is valid expires later.
abbrev pub IsChosen : Environment → List Bulletin → Bulletin → Option BulletinState → Type 0
IsChosen env bulletins m_bulletin none = All (λ b. (state env.now b).valid ≡ false) bulletins
IsChosen env bulletins m_bulletin (some selected) =
    (selected.valid ≡ true)
    × (state env.now m_bulletin ≡ selected)
    × In m_bulletin bulletins
    × ((first_usable env bulletins ≡ some m_bulletin)
        ⊎ (All (IsUnusable env) bulletins
            × All (λ b. (state env.now b).valid ≡ true → expiry env.now b ≤ℤ selected.expires_at)
                bulletins))

and_left : (a b : Bool) → (a && b) ≡ true → a ≡ true
and_left true b e = refl
and_left false b e = e

usable-valid : (now : ℕ) (s : BulletinState) → usable now s ≡ true → s.valid ≡ true
unfolding usable
usable-valid now s e = and_left s.valid _ e

module _ (env : Environment) (b : Bulletin) (bs : List Bulletin) where
  first_usable-usable : usable env.now (state env.now b) ≡ true → first_usable env (b ∷ bs) ≡ some b
  first_usable-usable e = if_true (usable env.now (state env.now b)) _ _ e

  first_usable-unusable : IsUnusable env b → first_usable env (b ∷ bs) ≡ first_usable env bs
  first_usable-unusable e = if_false (usable env.now (state env.now b)) _ _ e

first_usable-In :
    (env : Environment) (c : Bulletin) (bs : List Bulletin)
    → first_usable env bs ≡ some c
    → In c bs × (usable env.now (state env.now c) ≡ true)
first_usable-In env c [] e = absurd cc
first_usable-In env c (b ∷ bs) e = elim (Bool-cases (usable env.now (state env.now b))) [
  | inl good ↦
      let same = some_eq (sym (first_usable-usable env b bs good) ∙ e) in
      (inl same, ap (λ (a : Bulletin). usable env.now (state env.now a)) (sym same) ∙ good)
  | inr bad ↦
      let (at, good) = first_usable-In env c bs (sym (first_usable-unusable env b bs bad) ∙ e) in
      (inr at, good)
]
  where
    some_eq : some b ≡ some c → b ≡ c
    some_eq h = cc

-- The first usable bulletin is a good choice.
usable-IsChosen :
    (env : Environment) (bulletins : List Bulletin) (b : Bulletin)
    → first_usable env bulletins ≡ some b
    → IsChosen env bulletins b (some (state env.now b))
usable-IsChosen env bulletins b e =
    let (at, good) = first_usable-In env b bulletins e in
    (usable-valid env.now (state env.now b) good, refl, at, inl e)

abbrev pub IsTried : Environment → List (List ℕ) → List Bulletin → Tried → Type 0
IsTried env urls bulletins (found b) = first_usable env (downloaded env urls) ≡ some b
IsTried env urls bulletins (collected all) =
    (all ≡ bulletins ++ downloaded env urls) × All (IsUnusable env) (downloaded env urls)

skip_url :
    (env : Environment) (url : List ℕ) (urls : List (List ℕ)) (bulletins : List Bulletin)
    (t : Tried)
    → download_from_url env url ≡ none
    → IsTried env urls bulletins t
    → IsTried env (url ∷ urls) bulletins t
skip_url env url urls bulletins (found b) e h = rw (e, downloaded) h
skip_url env url urls bulletins (collected all) e h = rw (e, downloaded) h

unusable_url :
    (env : Environment) (url : List ℕ) (urls : List (List ℕ)) (bulletins : List Bulletin)
    (b : Bulletin) (t : Tried)
    → download_from_url env url ≡ some b
    → IsUnusable env b
    → IsTried env urls (bulletins ++ b ∷ []) t
    → IsTried env (url ∷ urls) bulletins t
unusable_url env url urls bulletins b (found c) e u h =
    rw (e, downloaded) (first_usable-unusable env b (downloaded env urls) u ∙ h)
unusable_url env url urls bulletins b (collected all) e u h =
    rw (e, downloaded) (h.0 ∙ append_assoc bulletins (b ∷ []) (downloaded env urls), (u, h.1))

module _ (env : Environment) (url : List ℕ) (urls : List (List ℕ)) (bulletins : List Bulletin) where
  try_failed :
      download_from_url env url ≡ none
      → try_urls env (url ∷ urls) bulletins ≡ try_urls env urls bulletins
  unfolding try_urls
  try_failed e = rw (e, try_urls) refl

  try_found :
      (b : Bulletin)
      → download_from_url env url ≡ some b
      → usable env.now (state env.now b) ≡ true
      → try_urls env (url ∷ urls) bulletins ≡ found b
  unfolding try_urls
  try_found b e u = rw (e, u, try_urls) refl

  try_unusable :
      (b : Bulletin)
      → download_from_url env url ≡ some b
      → usable env.now (state env.now b) ≡ false
      → try_urls env (url ∷ urls) bulletins ≡ try_urls env urls (bulletins ++ b ∷ [])
  unfolding try_urls
  try_unusable b e u = rw (e, u, try_urls) refl

try_urls-IsTried :
    (env : Environment) (urls : List (List ℕ)) (bulletins : List Bulletin)
    → IsTried env urls bulletins (try_urls env urls bulletins)
unfolding try_urls
try_urls-IsTried env [] bulletins = (sym (append-nil bulletins), tt)
try_urls-IsTried env (url ∷ urls) bulletins = elim (Option-cases (download_from_url env url)) [
  | inl failed ↦
      subst (IsTried env (url ∷ urls) bulletins) (sym (try_failed env url urls bulletins failed)) (
        skip_url env url urls bulletins (try_urls env urls bulletins) failed
          (try_urls-IsTried env urls bulletins))
  | inr (b, e) ↦ elim (Bool-cases (usable env.now (state env.now b))) [
    | inl good ↦
        subst (IsTried env (url ∷ urls) bulletins) (sym (try_found env url urls bulletins b e good))
          (rw (e, downloaded) (first_usable-usable env b (downloaded env urls) good))
    | inr bad ↦
        subst (IsTried env (url ∷ urls) bulletins)
          (sym (try_unusable env url urls bulletins b e bad))
          (unusable_url env url urls bulletins b (try_urls env urls (bulletins ++ b ∷ [])) e bad
            (try_urls-IsTried env urls (bulletins ++ b ∷ [])))
  ]
]

take_expired-IsChosen :
    (env : Environment) (bulletins : List Bulletin) (m_bulletin : Bulletin) (o : Option Bulletin)
    → All (IsUnusable env) bulletins
    → IsBest env.now bulletins o
    → IsChosen env bulletins
        (take_expired env m_bulletin env.cache_file o).m_bulletin
        (take_expired env m_bulletin env.cache_file o).selected
take_expired-IsChosen env bulletins m_bulletin none u h = h
take_expired-IsChosen env bulletins m_bulletin (some c) u h = (h.0, refl, h.1, inr (u, h.2))

abbrev IsGood : Environment → List Bulletin → Selection → Type 0
IsGood env bulletins s = IsChosen env bulletins s.m_bulletin s.selected

after_urls-IsGood :
    (env : Environment) (urls : List (List ℕ)) (m_bulletin : Bulletin) (t : Tried)
    → IsUnusable env m_bulletin
    → IsUnusable env (cache_bulletin env)
    → IsTried env urls (m_bulletin ∷ cache_bulletin env ∷ []) t
    → IsGood env (candidates env urls m_bulletin) (after_urls env m_bulletin t)
after_urls-IsGood env urls m_bulletin (found b) u c h =
    usable-IsChosen env (candidates env urls m_bulletin) b (
      first_usable-unusable env m_bulletin (cache_bulletin env ∷ downloaded env urls) u
      ∙ first_usable-unusable env (cache_bulletin env) (downloaded env urls) c
      ∙ h)
after_urls-IsGood env urls m_bulletin (collected all) u c h =
    take_expired-IsChosen env (candidates env urls m_bulletin) m_bulletin
      (first_valid env.now (sort env.now all)) (u, (c, h.1))
      (subst (λ (bs : List Bulletin). IsBest env.now bs (first_valid env.now (sort env.now all)))
        h.0 (first_valid-sort env.now all))

-- The candidates are the current bulletin, the one in the cache file, and those that the URLs give, in
-- this order. Whatever they are, `get_valid_offset` fails only if none is valid. Otherwise it makes
-- one of them current and returns its state, which is valid: the first that is usable; or, if none is
-- usable, one than which no valid one expires later.
pub get_valid_offset-IsChosen :
    (env : Environment) (urls : List (List ℕ)) (m_bulletin : Bulletin)
    → IsChosen env
        (candidates env urls m_bulletin)
        (get_valid_offset env urls m_bulletin).m_bulletin
        (get_valid_offset env urls m_bulletin).selected
unfolding get_valid_offset
get_valid_offset-IsChosen env urls m_bulletin =
    let all = candidates env urls m_bulletin in
    elim (Bool-cases (usable env.now (state env.now m_bulletin))) [
      | inl current ↦
          subst (IsGood env all)
            (sym (if_true (usable env.now (state env.now m_bulletin)) _ _ current))
            (usable-IsChosen env all m_bulletin (
              first_usable-usable env m_bulletin (cache_bulletin env ∷ downloaded env urls)
                current))
      | inr u ↦ elim (Bool-cases (usable env.now (state env.now (cache_bulletin env)))) [
        | inl cached ↦
            subst (IsGood env all)
              (sym (
                if_false (usable env.now (state env.now m_bulletin)) _ _ u
                ∙ if_true (usable env.now (state env.now (cache_bulletin env))) _ _ cached))
              (usable-IsChosen env all (cache_bulletin env) (
                first_usable-unusable env m_bulletin (cache_bulletin env ∷ downloaded env urls) u
                ∙ first_usable-usable env (cache_bulletin env) (downloaded env urls) cached))
        | inr c ↦
            subst (IsGood env all)
              (sym (
                if_false (usable env.now (state env.now m_bulletin)) _ _ u
                ∙ if_false (usable env.now (state env.now (cache_bulletin env))) _ _ c))
              (after_urls-IsGood env urls m_bulletin
                (try_urls env urls (m_bulletin ∷ cache_bulletin env ∷ [])) u c
                (try_urls-IsTried env urls (m_bulletin ∷ cache_bulletin env ∷ [])))
      ]
    ]

-- A current bulletin that is usable is kept, and neither the cache nor a URL is looked at: the call
-- ends the same way whatever they hold.
pub get_valid_offset_kept :
    (env : Environment) (urls : List (List ℕ)) (m_bulletin : Bulletin)
    → usable env.now (state env.now m_bulletin) ≡ true
    → get_valid_offset env urls m_bulletin ≡ record {
      m_bulletin = m_bulletin;
      cache_file = env.cache_file;
      selected = some (state env.now m_bulletin);
    }
unfolding get_valid_offset
get_valid_offset_kept env urls m_bulletin e =
    if_true (usable env.now (state env.now m_bulletin)) _ _ e
