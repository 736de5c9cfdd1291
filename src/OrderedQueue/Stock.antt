-- ===== src/OrderedQueue/Stock.antt =====
-- `std::map<int, OrderedQueueData>`, as far as OrderedQueue uses it: an association list in which
-- a key stands once. The order of the entries is never observed.
use odr_source_companion.Base.{
  ℕ, suc, ◌<◌, ◌==◌, if◌then◌else◌, List, [], ◌∷◌, length, Option, none, some, ◌≡◌, refl, arith,
}

module _ {ℓ} {V : Type ℓ} where
  -- `at(k)`, where `none` stands for `std::out_of_range`, and `find(k)`
  unfoldable pub lookup : ℕ → List (ℕ × V) → Option V
  lookup k [] = none
  lookup k ((j, v) ∷ rest) = if j == k then some v else lookup k rest

  -- `map[k] = v`
  unfoldable pub insert : ℕ → V → List (ℕ × V) → List (ℕ × V)
  insert k v [] = (k, v) ∷ []
  insert k v ((j, held) ∷ rest) = if j == k then (k, v) ∷ rest else (j, held) ∷ insert k v rest

  -- `erase(k)`
  unfoldable pub erase : ℕ → List (ℕ × V) → List (ℕ × V)
  erase k [] = []
  erase k ((j, held) ∷ rest) = if j == k then rest else (j, held) ∷ erase k rest

  -- No key stands twice.
  abbrev pub DistinctKeys : List (ℕ × V) → Type ℓ
  DistinctKeys [] = Unit
  DistinctKeys ((j, held) ∷ rest) = (lookup j rest ≡ none) × DistinctKeys rest

  -- Every key is below `n`.
  abbrev pub KeysBelow : ℕ → List (ℕ × V) → Type 0
  KeysBelow n [] = Unit
  KeysBelow n ((j, held) ∷ rest) = (j < n) × KeysBelow n rest

  pub lookup-insert :
      (k j : ℕ) (v : V) (rest : List (ℕ × V))
      → lookup j (insert k v rest) ≡ (if k == j then some v else lookup j rest)
  unfolding lookup insert
  lookup-insert k j v [] = refl
  lookup-insert k j v ((i, held) ∷ rest) = ground (arith, lookup-insert k j v rest)

  pub lookup-erase :
      (k j : ℕ) (rest : List (ℕ × V))
      → DistinctKeys rest
      → lookup j (erase k rest) ≡ (if k == j then none else lookup j rest)
  unfolding lookup erase
  lookup-erase k j [] h = ground arith
  lookup-erase k j ((i, held) ∷ rest) h = ground (arith, lookup-erase k j rest)

  pub insert-DistinctKeys :
      (k : ℕ) (v : V) (rest : List (ℕ × V)) → DistinctKeys rest → DistinctKeys (insert k v rest)
  unfolding lookup insert
  insert-DistinctKeys k v [] h = (refl, tt)
  insert-DistinctKeys k v ((i, held) ∷ rest) h =
      ground (arith, insert-DistinctKeys k v rest, lookup-insert k i v rest)

  pub erase-DistinctKeys :
      (k : ℕ) (rest : List (ℕ × V)) → DistinctKeys rest → DistinctKeys (erase k rest)
  unfolding lookup erase
  erase-DistinctKeys k [] h = tt
  erase-DistinctKeys k ((i, held) ∷ rest) h =
      ground (arith, erase-DistinctKeys k rest, lookup-erase k i rest)

  pub insert-KeysBelow :
      (n k : ℕ) (v : V) (rest : List (ℕ × V))
      → k < n
      → KeysBelow n rest
      → KeysBelow n (insert k v rest)
  unfolding insert
  insert-KeysBelow n k v [] l h = (l, tt)
  insert-KeysBelow n k v ((i, held) ∷ rest) l h = ground (arith, insert-KeysBelow n k v rest)

  pub erase-KeysBelow :
      (n k : ℕ) (rest : List (ℕ × V)) → KeysBelow n rest → KeysBelow n (erase k rest)
  unfolding erase
  erase-KeysBelow n k [] h = tt
  erase-KeysBelow n k ((i, held) ∷ rest) h = ground (arith, erase-KeysBelow n k rest)

  pub length-insert :
      (k : ℕ) (v : V) (rest : List (ℕ × V))
      → length (insert k v rest)
        ≡ elim (lookup k rest) [ none ↦ suc (length rest) | some _ ↦ length rest ]
  unfolding lookup insert
  length-insert k v [] = refl
  length-insert k v ((i, held) ∷ rest) = ground (arith, length-insert k v rest)

  pub length-erase :
      (k : ℕ) (rest : List (ℕ × V)) (v : V)
      → lookup k rest ≡ some v
      → suc (length (erase k rest)) ≡ length rest
  unfolding lookup erase
  length-erase k [] v h = cc
  length-erase k ((i, held) ∷ rest) v h = ground (arith, length-erase k rest v)

  pub lookup-KeysBelow :
      (n k : ℕ) (rest : List (ℕ × V)) (v : V) → KeysBelow n rest → lookup k rest ≡ some v → k < n
  unfolding lookup
  lookup-KeysBelow n k [] v h e = cc
  lookup-KeysBelow n k ((i, held) ∷ rest) v h e = ground (arith, lookup-KeysBelow n k rest v)
