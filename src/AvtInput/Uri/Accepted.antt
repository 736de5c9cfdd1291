-- ===== src/AvtInput/Uri/Accepted.antt =====
-- The addresses that `_parseURI` accepts, written as udp://host:port.
use odr_source_companion.Base.{
  ℕ, zero, suc, Bool, ◌+◌, ◌-◌, ◌*◌, ◌^◌, ◌<◌, ◌≤◌, le→ltb, ltb, ◌==◌, if◌then◌else◌, true, false,
  List, [], ◌∷◌, ◌++◌, length, length-append, take, take-append, append_assoc, drop, drop-append,
  All, Option, none, some, if_true, if_false, ◌≡◌, ◌≢◌, refl, ap, sym, ◌∙◌, arith,
}
use odr_source_companion.AvtInput.Uri.{
  starts_with, Long, clamped, is_space, is_digit, digits_value, skip_spaces, signed, strtol,
  find_colon, bad_port, parse_at, parse_uri,
}

abbrev pub IsDigit : ℕ → Type 0
IsDigit c = (48 ≤ c) × (c ≤ 57)

-- The number that digits stand for.
abbrev pub decimal : ℕ → List ℕ → ℕ
decimal n [] = n
decimal n (c ∷ digits) = decimal (n * 10 + (c - 48)) digits

-- Text that does not go on with a digit.
abbrev pub EndsNumber : List ℕ → Type 0
EndsNumber [] = Unit
EndsNumber (c ∷ text) = is_digit c ≡ false

digits_value-decimal :
    (n : ℕ) (digits rest : List ℕ)
    → All IsDigit digits
    → EndsNumber rest
    → digits_value n (digits ++ rest) ≡ decimal n digits
unfolding digits_value
digits_value-decimal n [] [] h e = refl
digits_value-decimal n [] (c ∷ text) h e = if_false (is_digit c) _ _ e
digits_value-decimal n (c ∷ digits) rest h e =
    let digit : is_digit c ≡ true = ground (arith, h.0.0, h.0.1) in
    if_true (is_digit c) _ _ digit ∙ digits_value-decimal (n * 10 + (c - 48)) digits rest h.1 e

find_colon-host :
    (host text : List ℕ)
    → All (λ c. c ≢ 58) host
    → find_colon (host ++ 58 ∷ text) ≡ some (length host)
unfolding find_colon
find_colon-host [] text h = refl
find_colon-host (c ∷ host) text h =
    let later = find_colon-host host text h.1 in
    let other : (c == 58) ≡ false = ground (arith, h.0) in
    if_false (c == 58) _ _ other
    ∙ ap (λ (o : Option ℕ). elim o [ none ↦ none | some pos ↦ some (pos + 1) ]) later
    ∙ ap (λ (n : ℕ). some n) (omega arith)

-- A number that begins with a digit has neither a space nor a sign in front.
signed-digit :
    (c : ℕ) (text : List ℕ)
    → IsDigit c
    → signed (skip_spaces (c ∷ text))
      ≡ record { negative = false; magnitude = digits_value 0 (c ∷ text) }
signed-digit c text h =
    let space : is_space c ≡ false = ground (arith, h.0, h.1) in
    let minus : (c == 45) ≡ false = ground (arith, h.0) in
    let plus : (c == 43) ≡ false = ground (arith, h.0) in
    ap signed (if_false (is_space c) (skip_spaces text) (c ∷ text) space)
    ∙ if_false (c == 45) _ _ minus
    ∙ if_false (c == 43) _ _ plus

strtol-decimal :
    (c : ℕ) (digits rest : List ℕ)
    → IsDigit c
    → All IsDigit digits
    → EndsNumber rest
    → decimal 0 (c ∷ digits) < 65536
    → strtol (c ∷ (digits ++ rest))
      ≡ record { negative = false; magnitude = decimal 0 (c ∷ digits) }
unfolding strtol
strtol-decimal c digits rest h hs e small =
    let number = digits_value-decimal 0 (c ∷ digits) rest (h, hs) e in
    let all : signed (skip_spaces (c ∷ (digits ++ rest)))
        ≡ record { negative = false; magnitude = decimal 0 (c ∷ digits) } =
      signed-digit c (digits ++ rest) h
      ∙ ap (λ (n : ℕ). record { negative = false; magnitude = n }) number in
    ap clamped all
    ∙ if_false (ltb (2 ^ 63 - 1) (decimal 0 (c ∷ digits))) _ _
        (le→ltb (2 ^ 63 - 1) (decimal 0 (c ∷ digits)) (omega (arith, small)))

-- A host without a colon, and the digits of a port from 1 to 65535, with other text behind them or none:
-- `_parseURI` accepts udp://host:port and returns host and port.
pub parse_uri-accepted :
    (host : List ℕ) (c : ℕ) (digits rest : List ℕ)
    → All (λ d. d ≢ 58) host
    → IsDigit c
    → All IsDigit digits
    → EndsNumber rest
    → 0 < decimal 0 (c ∷ digits)
    → decimal 0 (c ∷ digits) < 65536
    → parse_uri (117 ∷ 100 ∷ 112 ∷ 58 ∷ 47 ∷ 47 ∷ (host ++ 58 ∷ c ∷ (digits ++ rest)))
      ≡ some (host, decimal 0 (c ∷ digits))
unfolding parse_uri
parse_uri-accepted host c digits rest no_colon h hs e pos small =
    let port = decimal 0 (c ∷ digits) in
    let text = c ∷ (digits ++ rest) in
    let address = host ++ 58 ∷ text in
    let number : Long = record { negative = false; magnitude = port } in
    let behind : drop (length host + 1) address ≡ text =
      ap (drop (length host + 1)) (sym (append_assoc host (58 ∷ []) text))
      ∙ drop-append (host ++ 58 ∷ []) text (length host + 1)
          (omega (arith, length-append {0} host (58 ∷ []))) in
    let good : bad_port number ≡ false = ground (arith, pos, small) in
    ap (parse_at address) (find_colon-host host text no_colon)
    ∙ ap (λ (n : Long). if bad_port n then none else some (take (length host) address, n.magnitude))
        (ap strtol behind ∙ strtol-decimal c digits rest h hs e small)
    ∙ if_false (bad_port number) _ _ good
    ∙ ap (λ (l : List ℕ). some (l, port)) (take-append host (58 ∷ text) (length host) refl)

find_colon-none : (text : List ℕ) → All (λ c. c ≢ 58) text → find_colon text ≡ none
unfolding find_colon
find_colon-none [] h = refl
find_colon-none (c ∷ text) h =
    let other : (c == 58) ≡ false = ground (arith, h.0) in
    if_false (c == 58) _ _ other
    ∙ ap (λ (o : Option ℕ). elim o [ none ↦ none | some pos ↦ some (pos + 1) ])
        (find_colon-none text h.1)

drop-no_colon : (n : ℕ) (text : List ℕ) → All (λ c. c ≢ 58) text → All (λ c. c ≢ 58) (drop n text)
drop-no_colon zero text h = h
drop-no_colon (suc n) [] h = tt
drop-no_colon (suc n) (c ∷ text) h = drop-no_colon n text h.1

-- An address without a colon is refused.
pub parse_uri-no_colon : (uri : List ℕ) → All (λ c. c ≢ 58) uri → parse_uri uri ≡ none
unfolding parse_uri
parse_uri-no_colon uri h = go (starts_with (117 ∷ 100 ∷ 112 ∷ 58 ∷ 47 ∷ 47 ∷ []) uri)
  where
    refused :
        (address : List ℕ)
        → All (λ c. c ≢ 58) address
        → parse_at address (find_colon address) ≡ none
    refused address k = ap (parse_at address) (find_colon-none address k)

    go :
        (scheme : Bool)
        → parse_at
            (if scheme then drop 6 uri else uri)
            (find_colon (if scheme then drop 6 uri else uri))
          ≡ none
    go true = refused (drop 6 uri) (drop-no_colon 6 uri h)
    go false = refused uri h
