-- ===== src/ClockTai/Refresh.antt =====
-- The class ClockTAI of lib/ClockTAI.cpp. A function below is what one thread does while the others
-- cannot see it: `get_offset` has four parts where no state is cached, since it unlocks the mutex for
-- `get_valid_offset`, which locks it itself, and assigns the result before it locks it again. The
-- download that `async` starts is a step of its own. Times of the steady clock are nanoseconds from
-- its epoch.
pub mod Sound
pub mod Runs
use odr_source_companion.Base.{
  ℕ, ◌+◌, ◌*◌, ◌^◌, ltb, if◌then◌else◌, Bool, true, false, List, [], ◌∷◌, Option, none, some,
}
use odr_source_companion.Base.Int.{ℤ}
use odr_source_companion.ClockTai.Text.{split_pipe_separated_string, join_string_with_pipe}
use odr_source_companion.ClockTai.Bulletin.{
  BulletinState, Bulletin, bulletin_text, state, expires_in, create_with_fixed_offset,
  clear_expiry_if_overridden,
}
use odr_source_companion.ClockTai.Selection.{Environment, Selection, get_valid_offset}

-- `m_offset_future`: none, one whose task runs, or one with the result; `none` in it is
-- download_failed.
pub data Future : Type 0 where
  no_future : Future
  pending : Future
  done : Option BulletinState → Future

-- `m_state_last_updated` is `none` for time_point::min().
pub record ClockTai : Type 0 where
  pub m_offset_future : Future
  pub m_bulletin_urls : List (List ℕ)
  pub m_bulletin : Bulletin
  pub m_state : Option BulletinState
  pub m_state_last_updated : Option ℕ

abbrev pub or_default : List (List ℕ) → List (List ℕ) → List (List ℕ)
or_default [] default_tai_urls = default_tai_urls
or_default (url ∷ urls) default_tai_urls = url ∷ urls

-- The constructor, for the URLs that are configured and the built-in ones.
unfoldable pub new : List (List ℕ) → List (List ℕ) → ClockTai
new bulletin_urls default_tai_urls = record {
  m_offset_future = no_future;
  m_bulletin_urls = or_default bulletin_urls default_tai_urls;
  m_bulletin = record { source = []; bulletin_or_override = bulletin_text [] };
  m_state = none;
  m_state_last_updated = some 0;
}

abbrev pub one_hour : ℕ
one_hour = 3600 * 10 ^ 9

-- `m_state_last_updated + hours(1) < time_now`
abbrev pub is_due : Option ℕ → ℕ → Bool
is_due none time_now = true
is_due (some last_updated) time_now = ltb (last_updated + one_hour) time_now

abbrev pub one_hour_later : Option ℕ → Option ℕ
one_hour_later none = none
one_hour_later (some last_updated) = some (last_updated + one_hour)

-- The branches of the refresh, by the state of the future; `get` leaves it without a state.
unfoldable pub refresh_with : ClockTai → ℕ → Future → ClockTai
refresh_with self time_now no_future = record self { m_offset_future = pending }
refresh_with self time_now pending = self
refresh_with self time_now (done none) = record self {
  m_offset_future = no_future;
  m_state_last_updated = one_hour_later self.m_state_last_updated;
}
refresh_with self time_now (done (some new_state)) = record self {
  m_offset_future = no_future;
  m_state = some new_state;
  m_state_last_updated = some time_now;
}

unfoldable pub refresh : ClockTai → ℕ → ClockTai
unfolding refresh_with
refresh self time_now =
    if is_due self.m_state_last_updated time_now
    then refresh_with self time_now self.m_offset_future
    else self

abbrev pub offset_of : Option BulletinState → Option ℤ
offset_of none = none
offset_of (some s) = some s.offset

abbrev pub first_selection : ClockTai → Environment → Selection
first_selection self env = get_valid_offset env self.m_bulletin_urls self.m_bulletin

-- Where a thread stands in `get_offset`: outside; past the unlock, with its `time_now`; with the result
-- of `get_valid_offset`; past the assignment to `m_state`; or at the end, with the offset, or `none` for
-- the exception.
pub data Call : Type 0 where
  idle : Call
  unlocked : ℕ → Call
  selected : ℕ → Option BulletinState → Call
  assigned : ℕ → Call
  answered : Option ℤ → Call

-- The object after a part of the call, where the thread stands, and what the cache file holds.
pub record Progress : Type 0 where
  pub self : ClockTai
  pub call : Call
  pub cache_file : Option (List ℕ)

-- The refresh and the return, under the mutex.
abbrev pub refreshed : ClockTai → Option (List ℕ) → Progress
refreshed self cache_file = record {
  self = self;
  call = answered (offset_of self.m_state);
  cache_file = cache_file;
}

-- The test at the start, by the state that is cached.
unfoldable pub enter : ClockTai → Environment → ℕ → Option BulletinState → Progress
unfolding refresh
enter self env time_now none = record {
  self = self;
  call = unlocked time_now;
  cache_file = env.cache_file;
}
enter self env time_now (some cached) = refreshed (refresh self time_now) env.cache_file

-- The next part of `get_offset`; a thread that has its answer leaves the call.
unfoldable pub get_offset : ClockTai → Environment → ℕ → Call → Progress
unfolding enter refresh
get_offset self env time_now idle = enter self env time_now self.m_state
get_offset self env time_now (unlocked t) = record {
  self = record self { m_bulletin = (first_selection self env).m_bulletin };
  call = selected t (first_selection self env).selected;
  cache_file = (first_selection self env).cache_file;
}
get_offset self env time_now (selected t none) = record {
  self = self;
  call = answered none;
  cache_file = env.cache_file;
}
get_offset self env time_now (selected t (some first_state)) = record {
  self = record self { m_state = some first_state };
  call = assigned t;
  cache_file = env.cache_file;
}
get_offset self env time_now (assigned t) =
    refreshed (refresh (record self { m_state_last_updated = some t }) t) env.cache_file
get_offset self env time_now (answered offset) = record {
  self = self;
  call = idle;
  cache_file = env.cache_file;
}

-- The result of the task, if there is one.
unfoldable pub finish_with : ClockTai → Environment → Future → ClockTai
finish_with self env no_future = self
finish_with self env pending = record self {
  m_bulletin = (first_selection self env).m_bulletin;
  m_offset_future = done (first_selection self env).selected;
}
finish_with self env (done result) = self

-- The task that `async` started.
unfoldable pub finish : ClockTai → Environment → ClockTai
unfolding finish_with
finish self env = finish_with self env self.m_offset_future

-- `set_parameter` of "tai_utc_offset", for the number that stoi reads.
unfoldable pub set_tai_utc_offset : ClockTai → ℕ → ℕ → ℤ → ClockTai
set_tai_utc_offset self now time_now offset = record self {
  m_bulletin = create_with_fixed_offset now offset;
  m_state = some (state now (create_with_fixed_offset now offset));
  m_state_last_updated = some time_now;
}

-- `set_parameter` of "url".
unfoldable pub set_url : ClockTai → ℕ → List ℕ → ClockTai
set_url self now value = record self {
  m_bulletin_urls = split_pipe_separated_string value;
  m_state_last_updated = none;
  m_bulletin = clear_expiry_if_overridden now self.m_bulletin;
}

pub record Values : Type 0 where
  pub tai_utc_offset : ℤ
  pub expiry : ℤ
  pub expires_at : Option ℤ
  pub url : List ℕ

unfoldable pub get_all_values : ClockTai → ℕ → Values
get_all_values self now = record {
  tai_utc_offset = (state now self.m_bulletin).offset;
  expiry = expires_in now (state now self.m_bulletin);
  expires_at =
      if (state now self.m_bulletin).valid
      then some (state now self.m_bulletin).expires_at
      else none;
  url = join_string_with_pipe self.m_bulletin_urls;
}
