-- ===== src/ClockTai/Text.antt =====
-- The texts of lib/ClockTAI.cpp: lines, URLs separated by pipes, and the two regular expressions.
pub mod Urls
pub mod Matches
use odr_source_companion.Base.{
  ℕ, ltb, ◌==◌, ◌^◌, if◌then◌else◌, Bool, true, false, List, [], ◌∷◌, ◌++◌, length, Option, none,
  some,
}
use odr_source_companion.AvtInput.Uri.{is_digit, is_space, digits_value, skip_spaces}

-- A character in front of the first line.
abbrev pub prepend : ℕ → List (List ℕ) → List (List ℕ)
prepend c [] = (c ∷ []) ∷ []
prepend c (line ∷ lines) = (c ∷ line) ∷ lines

-- What a loop on `getline` reads: nothing behind a delimiter at the end is no line.
unfoldable pub getlines : ℕ → List ℕ → List (List ℕ)
getlines delim [] = []
getlines delim (c ∷ text) =
    let rest = getlines delim text in if c == delim then [] ∷ rest else prepend c rest

unfoldable pub split_pipe_separated_string : List ℕ → List (List ℕ)
unfolding getlines
split_pipe_separated_string s = getlines b'|' s

unfoldable pub join_string_with_pipe : List (List ℕ) → List ℕ
join_string_with_pipe [] = []
join_string_with_pipe (url ∷ []) = url
join_string_with_pipe (url ∷ next ∷ urls) = url ++ b'|' ∷ join_string_with_pipe (next ∷ urls)

-- `[0-9]+` at the front: the digits and what follows. What follows in both expressions is no digit,
-- so that the match takes all digits.
unfoldable pub take_digits : List ℕ → List ℕ
take_digits [] = []
take_digits (c ∷ text) = let rest = take_digits text in if is_digit c then c ∷ rest else []

unfoldable pub drop_digits : List ℕ → List ℕ
drop_digits [] = []
drop_digits (c ∷ text) = let rest = drop_digits text in if is_digit c then rest else c ∷ text

unfoldable pub match_digits : List ℕ → Option (List ℕ × List ℕ)
unfolding take_digits drop_digits
match_digits text =
    if length (take_digits text) == 0 then none else some (take_digits text, drop_digits text)

-- `\s+`
unfoldable pub match_spaces : List ℕ → Option (List ℕ)
match_spaces [] = none
match_spaces (c ∷ text) = if is_space c then some (skip_spaces text) else none

unfoldable pub match_char : ℕ → List ℕ → Option (List ℕ)
match_char expected [] = none
match_char expected (c ∷ text) = if c == expected then some text else none

infixl 5 ◌>>=◌
abbrev pub ◌>>=◌ {ℓ κ} : {A : Type ℓ} {B : Type κ} → Option A → (A → Option B) → Option B
none >>= f = none
some a >>= f = f a

-- `([0-9]+)\s+([0-9]+)\s+#.*` at the front: the timestamp and the offset.
unfoldable pub match_entry : List ℕ → Option (List ℕ × List ℕ)
unfolding match_digits match_spaces match_char
match_entry text = match_digits text >>= λ timestamp. match_spaces (timestamp.1) >>= λ rest.
    match_digits rest >>= λ offset. match_spaces (offset.1) >>= λ rest'.
    match_char b'#' rest' >>= λ comment. some (timestamp.0, offset.0)

-- `#@\s+([0-9]+)` at the front.
unfoldable pub match_expiration : List ℕ → Option (List ℕ)
unfolding match_digits match_spaces match_char
match_expiration text = match_char b'#' text >>= λ rest. match_char b'@' rest >>= λ rest'.
    match_spaces rest' >>= λ rest''. match_digits rest'' >>= λ expiry. some (expiry.0)

-- `regex_search`: the leftmost match.
unfoldable pub search {ℓ} : {A : Type ℓ} → (List ℕ → Option A) → List ℕ → Option A
search match [] = match []
search match (c ∷ text) = elim (match (c ∷ text)) [ none ↦ search match text | some m ↦ some m ]

-- std::stoll and std::stoi on digits; `none` is out_of_range.
unfoldable pub stoll : List ℕ → Option ℕ
stoll digits = if ltb (digits_value 0 digits) (2 ^ 63) then some (digits_value 0 digits) else none

unfoldable pub stoi : List ℕ → Option ℕ
stoi digits = if ltb (digits_value 0 digits) (2 ^ 31) then some (digits_value 0 digits) else none
