-- ===== src/Base/Lists.antt =====
-- Vectors as lists, measured and indexed by native numbers, under the library's names.
use Prim.Native.Nat.{ℕ, zero, suc, ◌+◌, ◌-◌, ◌*◌, ◌≤◌, ◌<◌, min}
use mathlib.Core.Path.{◌≡◌, refl, sym, ◌∙◌, ap, ap₂}
use mathlib.Core.List.{List, [], ◌∷◌, ◌++◌, map}
use mathlib.Core.Option.{Option, none, some}
use native.Mathlib.Omega.{arith}

module _ {ℓ} {A : Type ℓ} where
  abbrev pub length : List A → ℕ
  length [] = 0
  length (x ∷ xs) = suc (length xs)

  abbrev pub get_elem? : List A → ℕ → Option A
  get_elem? [] i = none
  get_elem? (x ∷ xs) zero = some x
  get_elem? (x ∷ xs) (suc i) = get_elem? xs i

  abbrev pub get_or : List A → ℕ → A → A
  get_or [] i d = d
  get_or (x ∷ xs) zero d = x
  get_or (x ∷ xs) (suc i) d = get_or xs i d

  -- A write out of bounds changes nothing.
  abbrev pub set : List A → ℕ → A → List A
  set [] i v = []
  set (x ∷ xs) zero v = v ∷ xs
  set (x ∷ xs) (suc i) v = x ∷ set xs i v

  abbrev pub take : ℕ → List A → List A
  take zero xs = []
  take (suc n) [] = []
  take (suc n) (x ∷ xs) = x ∷ take n xs

  abbrev pub drop : ℕ → List A → List A
  drop zero xs = xs
  drop (suc n) [] = []
  drop (suc n) (x ∷ xs) = drop n xs

  abbrev pub replicate : ℕ → A → List A
  replicate zero a = []
  replicate (suc n) a = a ∷ replicate n a

  -- `f i ∷ f (i + 1) ∷ …`, `n` elements.
  abbrev pub tabulate : (ℕ → A) → ℕ → ℕ → List A
  tabulate f zero i = []
  tabulate f (suc n) i = f i ∷ tabulate f n (suc i)

  pub length-append : (xs ys : List A) → length (xs ++ ys) ≡ length xs + length ys
  length-append [] ys = omega arith
  length-append (x ∷ xs) ys = omega (arith, length-append xs ys)

  pub length-take : (n : ℕ) (xs : List A) → length (take n xs) ≡ min n (length xs)
  length-take zero xs = omega arith
  length-take (suc n) [] = omega arith
  length-take (suc n) (x ∷ xs) = omega (arith, length-take n xs)

  pub length-drop : (n : ℕ) (xs : List A) → length (drop n xs) ≡ length xs - n
  length-drop zero xs = omega arith
  length-drop (suc n) [] = omega arith
  length-drop (suc n) (x ∷ xs) = omega (arith, length-drop n xs)

  pub length-replicate : (n : ℕ) (a : A) → length (replicate n a) ≡ n
  length-replicate zero a = refl
  length-replicate (suc n) a = ap suc (length-replicate n a)

  pub length-tabulate : (f : ℕ → A) (n i : ℕ) → length (tabulate f n i) ≡ n
  length-tabulate f zero i = refl
  length-tabulate f (suc n) i = ap suc (length-tabulate f n (suc i))

  pub take-append-drop : (n : ℕ) (xs : List A) → take n xs ++ drop n xs ≡ xs
  take-append-drop zero xs = refl
  take-append-drop (suc n) [] = refl
  take-append-drop (suc n) (x ∷ xs) = rw (take-append-drop n xs)

  -- The prefix is written as a list, so that a length can be put in.
  pub take-append : (xs ys : List A) (n : ℕ) → n ≡ length xs → take n (xs ++ ys) ≡ xs
  take-append [] ys zero h = refl
  take-append [] ys (suc n) h = absurd (omega arith)
  take-append (x ∷ xs) ys zero h = absurd (omega arith)
  take-append (x ∷ xs) ys (suc n) h = ap (λ (l : List A). x ∷ l) (take-append xs ys n (omega arith))

  pub drop-append : (xs ys : List A) (n : ℕ) → n ≡ length xs → drop n (xs ++ ys) ≡ ys
  drop-append [] ys zero h = refl
  drop-append [] ys (suc n) h = absurd (omega arith)
  drop-append (x ∷ xs) ys zero h = absurd (omega arith)
  drop-append (x ∷ xs) ys (suc n) h = drop-append xs ys n (omega arith)

  pub take-all : (n : ℕ) (xs : List A) → length xs ≤ n → take n xs ≡ xs
  take-all zero [] h = refl
  take-all zero (x ∷ xs) h = absurd (omega arith)
  take-all (suc n) [] h = refl
  take-all (suc n) (x ∷ xs) h = ap (λ (l : List A). x ∷ l) (take-all n xs (omega arith))

  pub drop-all : (n : ℕ) (xs : List A) → length xs ≤ n → drop n xs ≡ []
  drop-all zero [] h = refl
  drop-all zero (x ∷ xs) h = absurd (omega arith)
  drop-all (suc n) [] h = refl
  drop-all (suc n) (x ∷ xs) h = drop-all n xs (omega arith)

  pub get_or-tabulate :
      (f : ℕ → A) (n i j : ℕ) (d : A) → j < n → get_or (tabulate f n i) j d ≡ f (i + j)
  get_or-tabulate f zero i j d h = absurd (omega arith)
  get_or-tabulate f (suc n) i zero d h = ap f (omega arith)
  get_or-tabulate f (suc n) i (suc j) d h =
      rw (get_or-tabulate f n (suc i) j d (omega arith)) (ap f (omega arith))

  pub get_or_ext :
      (d : A) (xs ys : List A)
      → length xs ≡ length ys
      → ((i : ℕ) → i < length xs → get_or xs i d ≡ get_or ys i d)
      → xs ≡ ys
  get_or_ext d [] [] e h = refl
  get_or_ext d [] (y ∷ ys) e h = absurd (omega arith)
  get_or_ext d (x ∷ xs) [] e h = absurd (omega arith)
  get_or_ext d (x ∷ xs) (y ∷ ys) e h =
      ap₂ ◌∷◌ (h 0 (omega arith))
        (get_or_ext d xs ys (omega arith) (λ i p. h (suc i) (omega arith)))

  drop-nil : (k : ℕ) → drop k [] ≡ []
  drop-nil zero = refl
  drop-nil (suc k) = refl

  take-nil : (k : ℕ) → take k [] ≡ []
  take-nil zero = refl
  take-nil (suc k) = refl

  pub drop-drop : (n k : ℕ) (xs : List A) → drop k (drop n xs) ≡ drop (n + k) xs
  drop-drop zero k xs = ap (λ (t : ℕ). drop t xs) (omega arith)
  drop-drop (suc n) k [] =
      drop-nil k ∙ ap (λ (t : ℕ). drop t []) (let e : suc (n + k) ≡ suc n + k = omega arith in e)
  drop-drop (suc n) k (x ∷ xs) =
      drop-drop n k xs
      ∙ ap (λ (t : ℕ). drop t (x ∷ xs)) (let e : suc (n + k) ≡ suc n + k = omega arith in e)

  pub take-add : (n k : ℕ) (xs : List A) → take n xs ++ take k (drop n xs) ≡ take (n + k) xs
  take-add zero k xs = ap (λ (t : ℕ). take t xs) (omega arith)
  take-add (suc n) k [] =
      take-nil k ∙ ap (λ (t : ℕ). take t []) (let e : suc (n + k) ≡ suc n + k = omega arith in e)
  take-add (suc n) k (x ∷ xs) =
      ap (λ (l : List A). x ∷ l) (take-add n k xs)
      ∙ ap (λ (t : ℕ). take t (x ∷ xs)) (let e : suc (n + k) ≡ suc n + k = omega arith in e)

  -- The lists of a list, one after the other.
  abbrev pub joined : List (List A) → List A
  joined [] = []
  joined (l ∷ ls) = l ++ joined ls

  -- A predicate of every element, by recursion.
  abbrev pub All {κ} : (A → Type κ) → List A → Type κ
  All P [] = Unit
  All P (x ∷ xs) = P x × All P xs

module _ {ℓ} {A : Type ℓ} where
  -- Runs of `k` elements from the `c`-th on make up the list.
  pub joined-runs :
      (k m c : ℕ) (xs : List A)
      → joined (tabulate (λ j. take k (drop (j * k) xs)) m c) ≡ take (m * k) (drop (c * k) xs)
  joined-runs k zero c xs =
      ap (λ (t : ℕ). take t (drop (c * k) xs)) (let e : 0 ≡ 0 * k = omega arith in e)
  joined-runs k (suc m) c xs =
      ap (λ (l : List A). take k (drop (c * k) xs) ++ l)
        (joined-runs k m (suc c) xs
          ∙ ap (λ (t : ℕ). take (m * k) (drop t xs))
              (let e : suc c * k ≡ c * k + k = omega arith in e)
          ∙ ap (take (m * k)) (sym (drop-drop (c * k) k xs)))
      ∙ take-add k (m * k) (drop (c * k) xs)
      ∙ ap (λ (t : ℕ). take t (drop (c * k) xs)) (let e : k + m * k ≡ suc m * k = omega arith in e)

module _ {ℓ κ} {A : Type ℓ} (P : A → Type κ) where
  pub All-append : (xs ys : List A) → All P xs → All P ys → All P (xs ++ ys)
  All-append [] ys h k = k
  All-append (x ∷ xs) ys h k = (h.0, All-append xs ys h.1 k)

pub length-map {ℓ κ} :
    {A : Type ℓ} {B : Type κ} (f : A → B) (xs : List A) → length (map f xs) ≡ length xs
length-map f [] = refl
length-map f (x ∷ xs) = ap suc (length-map f xs)
