-- ===== src/ClockTai/Selection/Order.antt =====
-- The sorting of bulletins.
use odr_source_companion.Base.{
  ℕ, if_true, if_false, subst, true, false, Bool-cases, inl, inr, ◌⊎◌, List, [], ◌∷◌, All, Option,
  none, some, ◌≡◌, refl, sym, arith,
}
use odr_source_companion.Base.Int.{ℤ, lt_int, ◌≤ℤ◌}
use odr_source_companion.ClockTai.Bulletin.{Bulletin, state}
use odr_source_companion.ClockTai.Selection.{insert, sort, first_valid}

abbrev pub expiry : ℕ → Bulletin → ℤ
expiry now b = (state now b).expires_at

-- The largest expiry stands first.
abbrev pub IsSorted : ℕ → List Bulletin → Type 0
IsSorted now [] = Unit
IsSorted now (b ∷ bulletins) =
    All (λ a. expiry now a ≤ℤ expiry now b) bulletins × IsSorted now bulletins

insert_before :
    (now : ℕ) (b a : Bulletin) (bs : List Bulletin)
    → lt_int (expiry now a) (expiry now b) ≡ true
    → insert now b (a ∷ bs) ≡ b ∷ a ∷ bs
unfolding insert
insert_before now b a bs e = if_true _ _ _ e

insert_after :
    (now : ℕ) (b a : Bulletin) (bs : List Bulletin)
    → lt_int (expiry now a) (expiry now b) ≡ false
    → insert now b (a ∷ bs) ≡ a ∷ insert now b bs
unfolding insert
insert_after now b a bs e = if_false _ _ _ e

All-map {κ μ} :
    {P : Bulletin → Type κ} {Q : Bulletin → Type μ} (f : (b : Bulletin) → P b → Q b)
    (bs : List Bulletin)
    → All P bs
    → All Q bs
All-map f [] h = tt
All-map f (b ∷ bs) h = (f b h.0, All-map f bs h.1)

module _ {κ} (P : Bulletin → Type κ) (now : ℕ) where
  insert-All : (b : Bulletin) (bs : List Bulletin) → P b → All P bs → All P (insert now b bs)
  unfolding insert
  insert-All b [] p h = (p, tt)
  insert-All b (a ∷ bs) p h = elim (Bool-cases (lt_int (expiry now a) (expiry now b))) [
    | inl e ↦ subst (All P) (sym (insert_before now b a bs e)) (p, h)
    | inr e ↦ subst (All P) (sym (insert_after now b a bs e)) (h.0, insert-All b bs p h.1)
  ]

  All-insert : (b : Bulletin) (bs : List Bulletin) → All P (insert now b bs) → P b × All P bs
  unfolding insert
  All-insert b [] h = h
  All-insert b (a ∷ bs) h = elim (Bool-cases (lt_int (expiry now a) (expiry now b))) [
    | inl e ↦ subst (All P) (insert_before now b a bs e) h
    | inr e ↦
        let k = subst (All P) (insert_after now b a bs e) h in
        let more = All-insert b bs k.1 in (more.0, (k.0, more.1))
  ]

  pub All-sort : (bs : List Bulletin) → All P (sort now bs) → All P bs
  unfolding sort
  All-sort [] h = tt
  All-sort (b ∷ bs) h = let k = All-insert b (sort now bs) h in (k.0, All-sort bs k.1)

le_of_lt : (a b : ℤ) → lt_int a b ≡ true → a ≤ℤ b
le_of_lt a b h = ground arith

le_of_not_lt : (a b : ℤ) → lt_int a b ≡ false → b ≤ℤ a
le_of_not_lt a b h = ground arith

le_trans : (a b c : ℤ) → a ≤ℤ b → b ≤ℤ c → a ≤ℤ c
le_trans a b c h k = omega (arith, h, k)

insert-IsSorted :
    (now : ℕ) (b : Bulletin) (bs : List Bulletin) → IsSorted now bs → IsSorted now (insert now b bs)
unfolding insert
insert-IsSorted now b [] h = (tt, tt)
insert-IsSorted now b (a ∷ bs) h = elim (Bool-cases (lt_int (expiry now a) (expiry now b))) [
  | inl e ↦
      let below = le_of_lt (expiry now a) (expiry now b) e in
      subst (IsSorted now) (sym (insert_before now b a bs e)) (
        (
          below,
          All-map (λ c k. le_trans (expiry now c) (expiry now a) (expiry now b) k below) bs h.0,
        ),
        h,
      )
  | inr e ↦ subst (IsSorted now) (sym (insert_after now b a bs e)) (
    insert-All (λ c. expiry now c ≤ℤ expiry now a) now b bs
        (le_of_not_lt (expiry now a) (expiry now b) e) h.0,
    insert-IsSorted now b bs h.1,
  )
]

sort-IsSorted : (now : ℕ) (bs : List Bulletin) → IsSorted now (sort now bs)
unfolding sort
sort-IsSorted now [] = tt
sort-IsSorted now (b ∷ bs) = insert-IsSorted now b (sort now bs) (sort-IsSorted now bs)

-- One of these bulletins.
abbrev pub In : Bulletin → List Bulletin → Type 0
In c [] = ⊥
In c (b ∷ bs) = (b ≡ c) ⊎ In c bs

behind_first :
    (b c a : Bulletin) (bs rest : List Bulletin)
    → (In c rest → (b ≡ c) ⊎ In c bs)
    → In c (a ∷ rest)
    → (b ≡ c) ⊎ In c (a ∷ bs)
behind_first b c a bs rest f (inl same) = inr (inl same)
behind_first b c a bs rest f (inr more) = elim (f more) [
  | inl same ↦ inl same
  | inr further ↦ inr (inr further)
]

insert-In :
    (now : ℕ) (b c : Bulletin) (bs : List Bulletin) → In c (insert now b bs) → (b ≡ c) ⊎ In c bs
unfolding insert
insert-In now b c [] h = h
insert-In now b c (a ∷ bs) h = elim (Bool-cases (lt_int (expiry now a) (expiry now b))) [
  | inl e ↦ subst (In c) (insert_before now b a bs e) h
  | inr e ↦
      behind_first b c a bs (insert now b bs) (insert-In now b c bs)
        (subst (In c) (insert_after now b a bs e) h)
]

sort-In : (now : ℕ) (c : Bulletin) (bs : List Bulletin) → In c (sort now bs) → In c bs
unfolding sort
sort-In now c [] h = h
sort-In now c (b ∷ bs) h = elim (insert-In now b c (sort now bs) h) [
  | inl same ↦ inl same
  | inr more ↦ inr (sort-In now c bs more)
]

-- No bulletin is valid; or this one of them is, and no valid one expires later.
abbrev pub IsBest : ℕ → List Bulletin → Option Bulletin → Type 0
IsBest now bs none = All (λ a. (state now a).valid ≡ false) bs
IsBest now bs (some c) =
    ((state now c).valid ≡ true)
    × In c bs
    × All (λ a. (state now a).valid ≡ true → expiry now a ≤ℤ expiry now c) bs

-- An invalid bulletin in front.
skip_invalid :
    (now : ℕ) (b : Bulletin) (bs : List Bulletin) (o : Option Bulletin)
    → (state now b).valid ≡ false
    → IsBest now bs o
    → IsBest now (b ∷ bs) o
skip_invalid now b bs none e h = (e, h)
skip_invalid now b bs (some c) e h = (h.0, inr h.1, ((λ v. cc), h.2))

first_valid-IsBest :
    (now : ℕ) (bs : List Bulletin) → IsSorted now bs → IsBest now bs (first_valid now bs)
unfolding first_valid
first_valid-IsBest now [] h = tt
first_valid-IsBest now (b ∷ bs) h = elim (Bool-cases (state now b).valid) [
  | inl e ↦
      subst (IsBest now (b ∷ bs)) (sym (if_true (state now b).valid (some b) _ e))
        (e, inl refl, ((λ v. omega arith), All-map (λ c k v. k) bs h.0))
  | inr e ↦
      subst (IsBest now (b ∷ bs)) (sym (if_false (state now b).valid (some b) _ e))
        (skip_invalid now b bs (first_valid now bs) e (first_valid-IsBest now bs h.1))
]

unsorted :
    (now : ℕ) (bs : List Bulletin) (o : Option Bulletin)
    → IsBest now (sort now bs) o
    → IsBest now bs o
unsorted now bs none h = All-sort (λ a. (state now a).valid ≡ false) now bs h
unsorted now bs (some c) h = (
  h.0,
  sort-In now c bs h.1,
  All-sort (λ a. (state now a).valid ≡ true → expiry now a ≤ℤ expiry now c) now bs h.2,
)

-- The first valid bulletin after the sort is one that expires last among the valid ones.
pub first_valid-sort :
    (now : ℕ) (bs : List Bulletin) → IsBest now bs (first_valid now (sort now bs))
first_valid-sort now bs =
    unsorted now bs _ (first_valid-IsBest now (sort now bs) (sort-IsSorted now bs))
