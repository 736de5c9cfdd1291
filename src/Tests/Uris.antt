-- ===== src/Tests/Uris.antt =====
-- Addresses for src/AVTInput.cpp.
use odr_source_companion.Base.{ℕ, List, [], ◌∷◌, ◌++◌, none, some, ◌≡◌, refl, arith}
use odr_source_companion.AvtInput.Uri.{parse_uri, find_colon, strtol, digits_value}
use odr_source_companion.AvtInput.Uri.Accepted.{parse_uri-accepted}

abbrev port_9001 : List ℕ
port_9001 = b'0' ∷ b'0' ∷ b'1' ∷ []

parse_uri-accepted_example :
    parse_uri (
      b'u'
      ∷ b'd'
      ∷ b'p'
      ∷ b':'
      ∷ b'/'
      ∷ b'/'
      ∷ ((b'a' ∷ []) ++ b':' ∷ b'9' ∷ (port_9001 ++ b'x' ∷ [])))
    ≡ some (b'a' ∷ [], 9001)
parse_uri-accepted_example =
    parse_uri-accepted (b'a' ∷ []) b'9' port_9001 (b'x' ∷ []) ((λ e. omega (arith, e)), tt)
      (omega arith, omega arith)
      ((omega arith, omega arith), ((omega arith, omega arith), ((omega arith, omega arith), tt)))
      refl (omega arith) (omega arith)

-- Without the scheme, with a space and a sign; and port 0.
plain_address : parse_uri (b'a' ∷ b':' ∷ b' ' ∷ b'+' ∷ b'7' ∷ []) ≡ some (b'a' ∷ [], 7)
unfolding parse_uri strtol find_colon digits_value
plain_address = refl

port_0 : parse_uri (b'a' ∷ b':' ∷ b'0' ∷ []) ≡ none
unfolding parse_uri strtol find_colon digits_value
port_0 = refl
