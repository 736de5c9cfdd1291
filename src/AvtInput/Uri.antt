-- ===== src/AvtInput/Uri.antt =====
-- src/AVTInput.cpp: `_parseURI`. A C string is the list of its characters, without the one that ends
-- it. The messages on stderr are left out.
pub mod Accepted
use odr_source_companion.Base.{
  ℕ, ◌+◌, ◌-◌, ◌*◌, ◌^◌, ltb, leb, ◌==◌, ◌&&◌, ◌||◌, not, if◌then◌else◌, Bool, true, false, List,
  [], ◌∷◌, ◌++◌, length, take, drop, Option, none, some,
}

-- `strncmp(text, prefix, length of prefix) == 0`
abbrev pub starts_with : List ℕ → List ℕ → Bool
starts_with [] text = true
starts_with (c ∷ prefix) [] = false
starts_with (c ∷ prefix) (d ∷ text) = c == d && starts_with prefix text

abbrev pub is_digit : ℕ → Bool
is_digit c = leb b'0' c && leb c b'9'

abbrev pub is_space : ℕ → Bool
is_space c = c == b' ' || (leb 9 c && leb c 13)

-- The digits at the front, in base 10.
unfoldable pub digits_value : ℕ → List ℕ → ℕ
digits_value n [] = n
digits_value n (c ∷ text) =
    let more = digits_value (n * 10 + (c - b'0')) text in if is_digit c then more else n

abbrev pub skip_spaces : List ℕ → List ℕ
skip_spaces [] = []
skip_spaces (c ∷ text) = let rest = skip_spaces text in if is_space c then rest else c ∷ text

-- A `long`, by its sign and its absolute value.
pub record Long : Type 0 where
  pub negative : Bool
  pub magnitude : ℕ

-- Beyond the range LONG_MIN or LONG_MAX is returned.
abbrev pub clamped : Long → Long
clamped n =
    if ltb (2 ^ 63 - 1) n.magnitude
    then record { negative = n.negative; magnitude = if n.negative then 2 ^ 63 else 2 ^ 63 - 1 }
    else n

abbrev pub signed : List ℕ → Long
signed [] = record { negative = false; magnitude = 0 }
signed (c ∷ text) =
    if c == b'-'
    then record { negative = true; magnitude = digits_value 0 text }
    else if c == b'+'
    then record { negative = false; magnitude = digits_value 0 text }
    else record { negative = false; magnitude = digits_value 0 (c ∷ text) }

-- `strtol` in base 10
unfoldable pub strtol : List ℕ → Long
unfolding digits_value
strtol text = clamped (signed (skip_spaces text))

-- `address.find(':')`
unfoldable pub find_colon : List ℕ → Option ℕ
find_colon [] = none
find_colon (c ∷ text) =
    let later = find_colon text in
    if c == b':' then some 0 else elim later [ none ↦ none | some pos ↦ some (pos + 1) ]

abbrev pub bad_port : Long → Bool
bad_port port =
    port.negative
    || (port.magnitude == 0 || (leb 65536 port.magnitude || port.magnitude == 2 ^ 63 - 1))

abbrev pub parse_at : List ℕ → Option ℕ → Option (List ℕ × ℕ)
parse_at address none = none
parse_at address (some pos) =
    let port = strtol (drop (pos + 1) address) in
    if bad_port port then none else some (take pos address, port.magnitude)

-- The address and the port, or `none` where the source returns false.
unfoldable pub parse_uri : List ℕ → Option (List ℕ × ℕ)
unfolding strtol find_colon
parse_uri uri =
    let address =
      if starts_with (b'u' ∷ b'd' ∷ b'p' ∷ b':' ∷ b'/' ∷ b'/' ∷ []) uri then drop 6 uri else uri in
    parse_at address (find_colon address)
