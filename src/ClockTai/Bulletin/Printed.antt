-- ===== src/ClockTai/Bulletin/Printed.antt =====
-- Bulletins in the format of the IETF are read.
use odr_source_companion.Base.{
  ℕ, ◌+◌, ◌^◌, ◌<◌, ltb, leb, lt→ltb, le→ltb, if◌then◌else◌, if_true, if_false, sym, true, false,
  List, [], ◌∷◌, ◌++◌, All, All-append, append-nil, Option, none, some, ◌≡◌, ◌≢◌, refl, ap, ◌∙◌,
  subst, arith,
}
use native.Mathlib.Decide.{dec_lt}
use odr_source_companion.AvtInput.Uri.{is_digit, digits_value}
use odr_source_companion.Base.Int.{pos, sub_ℕ}
use odr_source_companion.ClockTai.Text.{
  getlines, match_digits, match_char, match_entry, match_expiration, search, stoll, stoi,
}
use odr_source_companion.ClockTai.Text.Matches.{
  AreDigits, NoSpace, match_digits-append, skip_none, match_all_digits, digits-NoSpace, digit-ne,
  search_front, search-digits,
}
use odr_source_companion.ClockTai.Text.Urls.{Lacks, getlines_line}
use odr_source_companion.ClockTai.Bulletin.{
  BulletinState, bulletin_text, parse_lines, parse_ietf_bulletin, first_expiration, state,
  ntp_unix_offset, with_offset, with_expiration, text_state, reasonable,
}

-- A line of the table: the digits of the NTP timestamp and of the offset, and a comment.
pub record Entry : Type 0 where
  pub timestamp : List ℕ
  pub offset : List ℕ
  pub comment : List ℕ

pub record IsEntry (e : Entry) : Type 0 where
  pub timestamp_digits : AreDigits e.timestamp
  pub timestamp_small : digits_value 0 e.timestamp < 2 ^ 63
  pub offset_digits : AreDigits e.offset
  pub offset_small : digits_value 0 e.offset < 2 ^ 31
  pub comment_line : Lacks b'\n' e.comment

abbrev pub print_entry : Entry → List ℕ
print_entry e = e.timestamp ++ b'\t' ∷ (e.offset ++ b'\t' ∷ b'#' ∷ e.comment)

abbrev pub print_entries : List Entry → List ℕ
print_entries [] = []
print_entries (e ∷ es) = print_entry e ++ b'\n' ∷ print_entries es

-- The expiration first, as a comment of its own.
abbrev pub print_bulletin : List ℕ → List Entry → List ℕ
print_bulletin expiry es = (b'#' ∷ b'@' ∷ b'\t' ∷ expiry) ++ b'\n' ∷ print_entries es

-- The offset of the last entry whose time is past, with the NTP era 2208988800 s before the UNIX one.
abbrev pub offset_at : ℕ → List Entry → Option ℕ → Option ℕ
offset_at now [] offset = offset
offset_at now (e ∷ es) offset = offset_at now es (
    if ltb (digits_value 0 e.timestamp) (now + 2208988800)
    then some (digits_value 0 e.offset)
    else offset)

match_entry-print :
    (e : Entry) → IsEntry e → match_entry (print_entry e) ≡ some (e.timestamp, e.offset)
unfolding match_entry match_char
match_entry-print e h =
    let hash = b'#' ∷ e.comment in
    rw
      (
        match_digits-append e.timestamp (b'\t' ∷ (e.offset ++ b'\t' ∷ hash)) h.timestamp_digits
            refl,
        skip_none (e.offset ++ b'\t' ∷ hash)
            (digits-NoSpace e.offset (b'\t' ∷ hash) h.offset_digits),
        match_digits-append e.offset (b'\t' ∷ hash) h.offset_digits refl,
      )
      refl

digits-Lacks :
    (delim : ℕ) (digits : List ℕ)
    → is_digit delim ≡ false
    → All (λ c. is_digit c ≡ true) digits
    → Lacks delim digits
digits-Lacks delim [] n h = tt
digits-Lacks delim (c ∷ digits) n h = (digit-ne delim c n h.0, digits-Lacks delim digits n h.1)

print_entry-Lacks : (e : Entry) → IsEntry e → Lacks b'\n' (print_entry e)
print_entry-Lacks e h =
    All-append (λ c. c ≢ b'\n') e.timestamp (b'\t' ∷ (e.offset ++ b'\t' ∷ b'#' ∷ e.comment))
      (digits-Lacks b'\n' e.timestamp refl h.timestamp_digits.0)
      (
        λ c. omega (arith, c),
        All-append (λ c. c ≢ b'\n') e.offset (b'\t' ∷ b'#' ∷ e.comment)
            (digits-Lacks b'\n' e.offset refl h.offset_digits.0)
            (λ c. omega (arith, c), (λ c. omega (arith, c), h.comment_line)),
      )

stoll-small :
    (digits : List ℕ) → digits_value 0 digits < 2 ^ 63 → stoll digits ≡ some (digits_value 0 digits)
unfolding stoll
stoll-small digits h = if_true _ _ _ (lt→ltb (digits_value 0 digits) (2 ^ 63) h)

stoi-small :
    (digits : List ℕ) → digits_value 0 digits < 2 ^ 31 → stoi digits ≡ some (digits_value 0 digits)
unfolding stoi
stoi-small digits h = if_true _ _ _ (lt→ltb (digits_value 0 digits) (2 ^ 31) h)

parse_entry :
    (now : ℕ) (e : Entry) (lines : List (List ℕ)) (offset : Option ℕ)
    → IsEntry e
    → parse_lines now (print_entry e ∷ lines) offset
      ≡ parse_lines now lines (
          if ltb (digits_value 0 e.timestamp) (now + ntp_unix_offset)
          then some (digits_value 0 e.offset)
          else offset)
unfolding parse_lines
parse_entry now e lines offset h =
    rw
      (
        search_front match_entry (print_entry e) (match_entry-print e h),
        stoll-small e.timestamp h.timestamp_small,
        stoi-small e.offset h.offset_small,
        parse_lines,
      )
      refl

parse_entries :
    (now : ℕ) (es : List Entry) (offset : Option ℕ)
    → All IsEntry es
    → parse_lines now (getlines b'\n' (print_entries es)) offset ≡ some (offset_at now es offset)
unfolding parse_lines getlines
parse_entries now [] offset h = refl
parse_entries now (e ∷ es) offset h =
    ap (λ (lines : List (List ℕ)). parse_lines now lines offset)
      (getlines_line b'\n' (print_entry e) (print_entries es) (print_entry-Lacks e h.0))
    ∙ parse_entry now e (getlines b'\n' (print_entries es)) offset h.0
    ∙ parse_entries now es _ h.1

expiration_line : (expiry : List ℕ) → List ℕ
expiration_line expiry = b'#' ∷ b'@' ∷ b'\t' ∷ expiry

bulletin_lines :
    (expiry : List ℕ) (es : List Entry)
    → AreDigits expiry
    → getlines b'\n' (print_bulletin expiry es)
      ≡ expiration_line expiry ∷ getlines b'\n' (print_entries es)
unfolding expiration_line
bulletin_lines expiry es h = getlines_line b'\n' (b'#' ∷ b'@' ∷ b'\t' ∷ expiry) (print_entries es) (
  λ c. omega (arith, c),
  (λ c. omega (arith, c), (λ c. omega (arith, c), digits-Lacks b'\n' expiry refl h.0)),
)

match_line :
    (expiry : List ℕ) → AreDigits expiry → match_expiration (expiration_line expiry) ≡ some expiry
unfolding match_expiration expiration_line
match_line expiry h =
    let no_space : NoSpace expiry =
      subst NoSpace (append-nil expiry) (digits-NoSpace expiry [] h) in
    rw (skip_none expiry no_space, match_all_digits expiry h) refl

read_expiration :
    (expiry : List ℕ) (lines : List (List ℕ))
    → AreDigits expiry
    → first_expiration (expiration_line expiry ∷ lines) ≡ some expiry
unfolding first_expiration
read_expiration expiry lines h =
    rw
      (
        search_front match_expiration (expiration_line expiry) (match_line expiry h),
        first_expiration,
      )
      refl

no_entry :
    (now : ℕ) (expiry : List ℕ) (lines : List (List ℕ)) (offset : Option ℕ)
    → AreDigits expiry
    → parse_lines now (expiration_line expiry ∷ lines) offset ≡ parse_lines now lines offset
unfolding parse_lines expiration_line search match_entry match_digits
no_entry now expiry lines offset h = rw (search-digits expiry h.0, parse_lines) refl

-- What a bulletin says, for the NTP time at which it expires and the offset that applies: in UNIX
-- time, and not valid without an offset or with one above 500.
abbrev pub stated : ℕ → Option ℕ → BulletinState
stated ntp_expiry none = record {
  valid = false;
  expires_at = sub_ℕ ntp_expiry 2208988800;
  offset = pos 0;
}
stated ntp_expiry (some offset) =
    if leb offset 500
    then record { valid = true; expires_at = sub_ℕ ntp_expiry 2208988800; offset = pos offset }
    else record { valid = false; expires_at = sub_ℕ ntp_expiry 2208988800; offset = pos 0 }

with_offset-stated :
    (ntp_expiry : ℕ) (o : Option ℕ)
    → with_offset (sub_ℕ ntp_expiry ntp_unix_offset) (reasonable (some o)) ≡ stated ntp_expiry o
with_offset-stated ntp_expiry none = refl
with_offset-stated ntp_expiry (some offset) =
    let expiry = sub_ℕ ntp_expiry 2208988800 in
    elim (dec_lt 500 offset) [
      | yes large ↦
          ap (with_offset expiry)
            (if_true (ltb 500 offset) none (some offset) (lt→ltb 500 offset large))
          ∙ sym (if_false (leb offset 500) _ _ (ground (arith, large)))
      | no small ↦
          ap (with_offset expiry) (
            if_false (ltb 500 offset) none (some offset) (le→ltb 500 offset (omega (arith, small))))
          ∙ sym (if_true (leb offset 500) _ _ (ground (arith, small)))
    ]

-- A bulletin that is printed with its expiration and a table of entries, all numbers in the range of
-- the types that hold them, is read as printed: it expires at the printed NTP time less 2208988800 s,
-- and the offset is that of the last entry whose time, less the same, is before `now`. It is valid
-- just if there is such an entry, and its offset is at most 500; otherwise the offset is 0.
pub state-print_bulletin :
    (now : ℕ) (source expiry : List ℕ) (es : List Entry)
    → AreDigits expiry
    → digits_value 0 expiry < 2 ^ 63
    → All IsEntry es
    → state now (record {
      source = source;
      bulletin_or_override = bulletin_text (print_bulletin expiry es);
    })
      ≡ stated (digits_value 0 expiry) (offset_at now es none)
unfolding state parse_ietf_bulletin
state-print_bulletin now source expiry es h small entries =
    let printed = print_bulletin expiry es in
    let lines = bulletin_lines expiry es h in
    ap (text_state now printed)
      (ap first_expiration lines ∙ read_expiration expiry (getlines b'\n' (print_entries es)) h)
    ∙ ap (with_expiration now printed) (stoll-small expiry small)
    ∙ ap
        (λ (o : Option (Option ℕ)).
          with_offset (sub_ℕ (digits_value 0 expiry) ntp_unix_offset) (reasonable o))
        (ap (λ (l : List (List ℕ)). parse_lines now l none) lines
          ∙ no_entry now expiry (getlines b'\n' (print_entries es)) none h
          ∙ parse_entries now es none entries)
    ∙ with_offset-stated (digits_value 0 expiry) (offset_at now es none)
