-- ===== src/Tests/Clock.antt =====
-- lib/ClockTAI.cpp at short bulletins.
use odr_source_companion.Base.{
  ℕ, ◌+◌, ◌*◌, ◌^◌, ltb, List, [], ◌∷◌, none, some, ◌≡◌, refl, arith, ◌≤◌, ◌<◌, ◌≢◌,
}
use odr_source_companion.Base.Int.{pos}
use odr_source_companion.AvtInput.Uri.{digits_value}
use odr_source_companion.ClockTai.Text.{split_pipe_separated_string, join_string_with_pipe}
use odr_source_companion.ClockTai.Text.Urls.{split-join}
use odr_source_companion.ClockTai.Bulletin.{
  Bulletin, bulletin_text, usable, state, create_with_fixed_offset, load_from_file, store_to_cache,
}
use odr_source_companion.ClockTai.Bulletin.Cache.{with_text, load-store}
use odr_source_companion.ClockTai.Bulletin.Override.{usable-create}
use odr_source_companion.ClockTai.Bulletin.Printed.{
  Entry, IsEntry, print_bulletin, offset_at, stated, state-print_bulletin,
}
use odr_source_companion.ClockTai.Selection.{Environment, get_valid_offset}
use odr_source_companion.ClockTai.Selection.Choice.{IsChosen, candidates, get_valid_offset-IsChosen}
use odr_source_companion.ClockTai.Refresh.{
  new, unlocked, answered, enter, get_offset, refresh, refresh_with, set_tai_utc_offset,
}
use odr_source_companion.ClockTai.Refresh.Sound.{
  IsAnswered, by_hand, Threads, update, runs, sets_offset, Run, start, followed_by,
}
use odr_source_companion.ClockTai.Refresh.Runs.{started, Run-IsAnswered}

abbrev two_urls : List (List ℕ)
two_urls = (b'a' ∷ b'b' ∷ []) ∷ (b'c' ∷ []) ∷ []

split-join_example : split_pipe_separated_string (join_string_with_pipe two_urls) ≡ two_urls
split-join_example = split-join two_urls (omega arith)

joined_urls : join_string_with_pipe two_urls ≡ b'a' ∷ b'b' ∷ b'|' ∷ b'c' ∷ []
unfolding join_string_with_pipe
joined_urls = refl

usable-create_example :
    usable 1900000000 (state 1900000000 (create_with_fixed_offset 1900000000 (pos 37)))
    ≡ ltb (1900000000 + 10 * 365 * 24 * 3600) (2 ^ 31)
usable-create_example = usable-create 1900000000 (pos 37) (omega arith)

load-store_example :
    (load_from_file [] (store_to_cache (with_text [] (1 ∷ [])) (some (2 ∷ 3 ∷ [])))
      ≡ with_text [] (1 ∷ 3 ∷ []))
    × (2 ≤ 1
        → load_from_file [] (store_to_cache (with_text [] (1 ∷ [])) (some (2 ∷ 3 ∷ [])))
          ≡ with_text [] (1 ∷ []))
    × (1 < 2
        → load_from_file [] (store_to_cache (with_text [] (1 ∷ [])) (some (2 ∷ 3 ∷ [])))
          ≢ with_text [] (1 ∷ []))
load-store_example = load-store [] [] (1 ∷ []) (2 ∷ 3 ∷ [])

abbrev first_entry : Entry
first_entry = record {
  timestamp = b'2' ∷ b'2' ∷ b'7' ∷ [];
  offset = b'1' ∷ b'0' ∷ [];
  comment = b' ' ∷ b'1' ∷ [];
}

abbrev an_expiry : List ℕ
an_expiry = b'9' ∷ b'0' ∷ b'0' ∷ []

first_entry-IsEntry : IsEntry first_entry
unfolding digits_value
first_entry-IsEntry = record {
  timestamp_digits = ((refl, (refl, (refl, tt))), omega arith);
  timestamp_small = omega arith;
  offset_digits = ((refl, (refl, tt)), omega arith);
  offset_small = omega arith;
  comment_line = omega arith;
}

small_expiry : digits_value 0 an_expiry < 2 ^ 63
unfolding digits_value
small_expiry = omega arith

state-print_bulletin_example :
    state 5 (record {
      source = [];
      bulletin_or_override = bulletin_text (print_bulletin an_expiry (first_entry ∷ []));
    })
    ≡ stated (digits_value 0 an_expiry) (offset_at 5 (first_entry ∷ []) none)
state-print_bulletin_example =
    state-print_bulletin 5 [] an_expiry (first_entry ∷ []) ((refl, (refl, (refl, tt))), omega arith)
      small_expiry (first_entry-IsEntry, tt)

-- The cache holds a bulletin; the only URL fails.
abbrev an_environment : Environment
an_environment = record {
  now = 5;
  download = λ url. none;
  tai_cache_location = b'f' ∷ [];
  cache_file = some (print_bulletin an_expiry (first_entry ∷ []));
}

abbrev empty_bulletin : Bulletin
empty_bulletin = record { source = []; bulletin_or_override = bulletin_text [] }

get_valid_offset-IsChosen_example :
    IsChosen an_environment
      (candidates an_environment two_urls empty_bulletin)
      (get_valid_offset an_environment two_urls empty_bulletin).m_bulletin
      (get_valid_offset an_environment two_urls empty_bulletin).selected
get_valid_offset-IsChosen_example = get_valid_offset-IsChosen an_environment two_urls empty_bulletin

-- Thread 0 has found no state and unlocked the mutex; an offset is set; then thread 1
-- asks.
abbrev clock_asked : Threads
clock_asked = started two_urls []

abbrev clock_set : Threads
clock_set = record {
  clock = set_tai_utc_offset clock_asked.clock 5 7 (pos 37);
  call = update clock_asked.call 0 (unlocked 8);
}

abbrev clock_answered : Threads
clock_answered = record clock_set { call = update clock_set.call 1 (answered (some (pos 37))) }

a_clock_run : Run clock_asked (by_hand 5 (pos 37) ∷ []) clock_answered
unfolding new get_offset enter refresh refresh_with set_tai_utc_offset state
    create_with_fixed_offset
a_clock_run =
    followed_by
      (followed_by (followed_by start (runs 0 an_environment 8)) (sets_offset 5 7 (pos 37)))
      (runs 1 an_environment 9)

Run-IsAnswered_example : IsAnswered (by_hand 5 (pos 37) ∷ []) (some (pos 37))
Run-IsAnswered_example = Run-IsAnswered two_urls [] 1 (some (pos 37)) a_clock_run refl
