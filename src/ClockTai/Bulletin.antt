-- ===== src/ClockTai/Bulletin.antt =====
-- The bulletins of lib/ClockTAI.cpp.
pub mod Printed
pub mod Cache
pub mod Override
use odr_source_companion.Base.{
  ℕ, ◌+◌, ◌*◌, ◌-◌, ◌%◌, ◌^◌, ltb, ◌&&◌, if◌then◌else◌, Bool, true, false, List, [], ◌∷◌, ◌++◌,
  length, drop, Option, none, some,
}
use odr_source_companion.Base.Int.{ℤ, pos, sub_ℕ, ◌-ℤ◌, lt_int}
use odr_source_companion.ClockTai.Text.{
  getlines, match_entry, match_expiration, search, stoll, stoi,
}

abbrev pub ntp_unix_offset : ℕ
ntp_unix_offset = 2208988800

pub record BulletinState : Type 0 where
  pub valid : Bool
  pub expires_at : ℤ
  pub offset : ℤ

abbrev pub no_state : BulletinState
no_state = record { valid = false; expires_at = pos 0; offset = pos 0 }

-- `now` is time(nullptr).
unfoldable pub expires_in : ℕ → BulletinState → ℤ
expires_in now self = self.expires_at -ℤ pos now

unfoldable pub usable : ℕ → BulletinState → Bool
unfolding expires_in
usable now self = self.valid && lt_int (pos 0) (expires_in now self)

unfoldable pub expires_soon : ℕ → BulletinState → Bool
unfolding usable expires_in
expires_soon now self = usable now self && lt_int (expires_in now self) (pos (1 * (3600 * 24 * 30)))

-- The variant: a text, or OverrideData.
pub data Contents : Type 0 where
  bulletin_text : List ℕ → Contents
  override : ℤ → ℤ → Contents

pub record Bulletin : Type 0 where
  pub source : List ℕ
  pub bulletin_or_override : Contents

-- The loop of `parse_ietf_bulletin`, with the offset found so far. `none` is out_of_range. The
-- timestamp is compared with the time before the NTP offset is taken off.
unfoldable pub parse_lines : ℕ → List (List ℕ) → Option ℕ → Option (Option ℕ)
parse_lines now [] tai_utc_offset = some tai_utc_offset
parse_lines now (line ∷ lines) tai_utc_offset = elim (search match_entry line) [
  | none ↦ parse_lines now lines tai_utc_offset
  | some (timestamp, offset) ↦ elim (stoll timestamp) [
    | none ↦ none
    | some t ↦ elim (stoi offset) [
      | none ↦ none
      | some o ↦
          parse_lines now lines (if ltb t (now + ntp_unix_offset) then some o else tai_utc_offset)
    ]
  ]
]

abbrev pub reasonable : Option (Option ℕ) → Option ℕ
reasonable none = none
reasonable (some none) = none
reasonable (some (some offset)) = if ltb 500 offset then none else some offset

-- `none` is an exception.
unfoldable pub parse_ietf_bulletin : ℕ → List ℕ → Option ℕ
unfolding parse_lines
parse_ietf_bulletin now bulletin = reasonable (parse_lines now (getlines b'\n' bulletin) none)

-- The digits of the first line that gives an expiration.
unfoldable pub first_expiration : List (List ℕ) → Option (List ℕ)
first_expiration [] = none
first_expiration (line ∷ lines) = elim (search match_expiration line) [
  | none ↦ first_expiration lines
  | some digits ↦ some digits
]

-- After the expiration was read: an exception leaves the state invalid.
abbrev pub with_offset : ℤ → Option ℕ → BulletinState
with_offset expiry none = record { valid = false; expires_at = expiry; offset = pos 0 }
with_offset expiry (some offset) = record { valid = true; expires_at = expiry; offset = pos offset }

abbrev pub with_expiration : ℕ → List ℕ → Option ℕ → BulletinState
with_expiration now bulletin none = no_state
with_expiration now bulletin (some expiry) =
    with_offset (sub_ℕ expiry ntp_unix_offset) (parse_ietf_bulletin now bulletin)

abbrev pub text_state : ℕ → List ℕ → Option (List ℕ) → BulletinState
text_state now bulletin none = no_state
text_state now bulletin (some digits) = with_expiration now bulletin (stoll digits)

abbrev pub contents_state : ℕ → Contents → BulletinState
contents_state now (bulletin_text bulletin) =
    text_state now bulletin (first_expiration (getlines b'\n' bulletin))
contents_state now (override offset expires_at) = record {
  valid = true;
  expires_at = expires_at;
  offset = offset;
}

unfoldable pub state : ℕ → Bulletin → BulletinState
state now self = contents_state now self.bulletin_or_override

-- What is stored in the member `int expires_at`.
abbrev pub to_int : ℕ → ℤ
to_int n = if ltb (n % 2 ^ 32) (2 ^ 31) then pos (n % 2 ^ 32) else sub_ℕ (n % 2 ^ 32) (2 ^ 32)

abbrev pub manual_override : List ℕ
manual_override =
    b'm' ∷ b'a' ∷ b'n' ∷ b'u' ∷ b'a' ∷ b'l' ∷ b' ' ∷ b'o' ∷ b'v' ∷ b'e' ∷ b'r' ∷ b'r' ∷ b'i' ∷ b'd'
    ∷ b'e' ∷ []

unfoldable pub create_with_fixed_offset : ℕ → ℤ → Bulletin
create_with_fixed_offset now offset = record {
  source = manual_override;
  bulletin_or_override = override offset (to_int (now + 10 * 365 * 24 * 3600));
}

abbrev pub cleared : ℕ → Contents → Contents
cleared now (bulletin_text bulletin) = bulletin_text bulletin
cleared now (override offset expires_at) = override offset (to_int now)

unfoldable pub clear_expiry_if_overridden : ℕ → Bulletin → Bulletin
clear_expiry_if_overridden now self = record self {
  bulletin_or_override = cleared now self.bulletin_or_override;
}

-- `file` is what the cache file holds, `none` where it cannot be opened, locked or read.
unfoldable pub load_from_file : List ℕ → Option (List ℕ) → Bulletin
load_from_file cache_filename none = record {
  source = cache_filename;
  bulletin_or_override = bulletin_text [];
}
load_from_file cache_filename (some bytes) = record {
  source = cache_filename;
  bulletin_or_override = bulletin_text bytes;
}

-- Writing from the start of a file that is not truncated.
abbrev pub overwrite : List ℕ → List ℕ → List ℕ
overwrite old bytes = bytes ++ drop (length bytes) old

-- `file` is what the cache file holds before, `none` if there is none; the file is opened and
-- written without an error. The outer `none` is the bad_variant_access of an override.
unfoldable pub store_to_cache : Bulletin → Option (List ℕ) → Option (List ℕ)
store_to_cache self file = elim self.bulletin_or_override [
  | override offset expires_at ↦ none
  | bulletin_text bulletin ↦ elim file [
    | none ↦ some bulletin
    | some old ↦ some (overwrite old bulletin)
  ]
]
