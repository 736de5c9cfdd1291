-- ===== src/ClockTai/Text/Matches.antt =====
-- What the two regular expressions of lib/ClockTAI.cpp match.
use odr_source_companion.Base.{
  ℕ, ◌<◌, ◌==◌, if_true, if_false, true, false, List, [], ◌∷◌, ◌++◌, length, All, append-nil,
  Option, none, some, ◌≡◌, ◌≢◌, refl, sym, ap, ap₂, ◌∙◌, arith,
}
use odr_source_companion.AvtInput.Uri.{is_digit, is_space, skip_spaces}
use odr_source_companion.ClockTai.Text.{
  take_digits, drop_digits, match_digits, match_spaces, match_entry, search,
}

abbrev pub AreDigits : List ℕ → Type 0
AreDigits text = All (λ c. is_digit c ≡ true) text × (0 < length text)

-- No digit stands at the front.
abbrev pub NoDigit : List ℕ → Type 0
NoDigit [] = Unit
NoDigit (c ∷ text) = is_digit c ≡ false

take_digits-append :
    (digits rest : List ℕ)
    → All (λ c. is_digit c ≡ true) digits
    → NoDigit rest
    → take_digits (digits ++ rest) ≡ digits
unfolding take_digits
take_digits-append [] [] h n = refl
take_digits-append [] (c ∷ rest) h n = if_false _ _ _ n
take_digits-append (c ∷ digits) rest h n =
    if_true _ _ _ h.0 ∙ ap (λ (l : List ℕ). c ∷ l) (take_digits-append digits rest h.1 n)

drop_digits-append :
    (digits rest : List ℕ)
    → All (λ c. is_digit c ≡ true) digits
    → NoDigit rest
    → drop_digits (digits ++ rest) ≡ rest
unfolding drop_digits
drop_digits-append [] [] h n = refl
drop_digits-append [] (c ∷ rest) h n = if_false _ _ _ n
drop_digits-append (c ∷ digits) rest h n = if_true _ _ _ h.0 ∙ drop_digits-append digits rest h.1 n

nonzero : (n : ℕ) → 0 < n → (n == 0) ≡ false
nonzero n h = ground arith

pub match_digits-append :
    (digits rest : List ℕ)
    → AreDigits digits
    → NoDigit rest
    → match_digits (digits ++ rest) ≡ some (digits, rest)
unfolding match_digits
match_digits-append digits rest h n =
    let t = take_digits-append digits rest h.0 n in
    let d = drop_digits-append digits rest h.0 n in
    if_false _ _ _ (ap (λ (l : List ℕ). length l == 0) t ∙ nonzero (length digits) h.1)
    ∙ ap some (ap₂ (λ (a b : List ℕ). (a, b)) t d)

-- No space stands at the front.
abbrev pub NoSpace : List ℕ → Type 0
NoSpace [] = Unit
NoSpace (c ∷ text) = is_space c ≡ false

pub skip_none : (rest : List ℕ) → NoSpace rest → skip_spaces rest ≡ rest
skip_none [] n = refl
skip_none (c ∷ rest) n = if_false _ _ _ n

digit-NoSpace : (c : ℕ) → is_digit c ≡ true → is_space c ≡ false
digit-NoSpace c h = ground arith

pub digits-NoSpace : (digits rest : List ℕ) → AreDigits digits → NoSpace (digits ++ rest)
digits-NoSpace [] rest h = absurd (omega (arith, h.1))
digits-NoSpace (c ∷ digits) rest h = digit-NoSpace c h.0.0

pub digit-ne : (d c : ℕ) → is_digit d ≡ false → is_digit c ≡ true → c ≢ d
digit-ne d c n h e = ground arith

pub search_front {ℓ} :
    {A : Type ℓ} (match : List ℕ → Option A) (line : List ℕ) {m : A}
    → match line ≡ some m
    → search match line ≡ some m
unfolding search
search_front match [] e = e
search_front match (c ∷ line) e = rw (e, search) refl

pub match_all_digits :
    (digits : List ℕ) → AreDigits digits → match_digits digits ≡ some (digits, [])
match_all_digits digits h =
    ap match_digits (sym (append-nil digits)) ∙ match_digits-append digits [] h tt

digits_no_entry : (digits : List ℕ) → AreDigits digits → match_entry digits ≡ none
unfolding match_entry match_spaces
digits_no_entry digits h = rw (match_all_digits digits h) refl

-- A number alone is no entry of the table.
pub search-digits :
    (digits : List ℕ) → All (λ c. is_digit c ≡ true) digits → search match_entry digits ≡ none
unfolding search match_entry match_digits
search-digits [] h = refl
search-digits (c ∷ digits) h =
    rw (digits_no_entry (c ∷ digits) (h, omega arith), search) (search-digits digits h.1)
