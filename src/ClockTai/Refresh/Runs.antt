-- ===== src/ClockTai/Refresh/Runs.antt =====
-- What happens to ClockTAI keeps its offsets sound.
use odr_source_companion.Base.{
  ℕ, ◌==◌, if◌then◌else◌, if_true, if_false, true, false, Bool, Bool-cases, inl, inr, List, [], ◌∷◌,
  ◌++◌, Option, none, some, ◌≡◌, refl, sym, ◌∙◌, subst,
}
use odr_source_companion.Base.Int.{ℤ}
use odr_source_companion.ClockTai.Bulletin.{BulletinState, state, create_with_fixed_offset}
use odr_source_companion.ClockTai.Selection.{Environment}
use odr_source_companion.ClockTai.Selection.Choice.{get_valid_offset-IsChosen}
use odr_source_companion.ClockTai.Refresh.{
  Future, no_future, pending, done, ClockTai, new, is_due, refresh_with, refresh, offset_of,
  first_selection, Call, idle, unlocked, selected, assigned, answered, Progress, enter, get_offset,
  finish_with, finish, set_tai_utc_offset, set_url,
}
use odr_source_companion.ClockTai.Refresh.Sound.{
  Origin, by_hand, selection, IsFrom, IsFromFuture, IsAnswered, IsCall, Threads, IsSound, update,
  origins, Step, runs, finishes, sets_offset, sets_url, Run, start, followed_by, KeepsState,
  IsFrom-more, IsFromFuture-more, IsCall-more, offset_of-IsAnswered, chosen-IsCall, chosen-IsFrom,
}

-- The object's part of soundness.
abbrev IsClock : List Origin → ClockTai → Type 0
IsClock log self = IsFrom log self.m_state × IsFromFuture log self.m_offset_future

refresh_with-IsClock :
    (log : List Origin) (self : ClockTai) (time_now : ℕ) (f : Future)
    → IsClock log self
    → IsFromFuture log f
    → IsClock log (refresh_with self time_now f)
unfolding refresh_with
refresh_with-IsClock log self time_now no_future h v = (h.0, tt)
refresh_with-IsClock log self time_now pending h v = h
refresh_with-IsClock log self time_now (done none) h v = (h.0, tt)
refresh_with-IsClock log self time_now (done (some s)) h v = (v, tt)

refresh-IsClock :
    (log : List Origin) (self : ClockTai) (time_now : ℕ)
    → IsClock log self
    → IsClock log (refresh self time_now)
unfolding refresh
refresh-IsClock log self time_now h =
    elim (Bool-cases (is_due self.m_state_last_updated time_now)) [
      | inl due ↦
          subst (IsClock log) (sym (if_true (is_due self.m_state_last_updated time_now) _ _ due))
            (refresh_with-IsClock log self time_now self.m_offset_future h h.1)
      | inr early ↦
          subst (IsClock log) (sym (if_false (is_due self.m_state_last_updated time_now) _ _ early))
            h
    ]

refresh_with-some :
    (self : ClockTai) (t : ℕ) (f : Future) (c : BulletinState)
    → self.m_state ≡ some c
    → (s : BulletinState) × ((refresh_with self t f).m_state ≡ some s)
unfolding refresh_with
refresh_with-some self t no_future c e = (c, e)
refresh_with-some self t pending c e = (c, e)
refresh_with-some self t (done none) c e = (c, e)
refresh_with-some self t (done (some s)) c e = (s, refl)

refresh-some :
    (self : ClockTai) (t : ℕ) (c : BulletinState)
    → self.m_state ≡ some c
    → (s : BulletinState) × ((refresh self t).m_state ≡ some s)
unfolding refresh
refresh-some self t c e = elim (Bool-cases (is_due self.m_state_last_updated t)) [
  | inl due ↦
      subst (λ (x : ClockTai). (s : BulletinState) × (x.m_state ≡ some s))
        (sym (if_true (is_due self.m_state_last_updated t) _ _ due))
        (refresh_with-some self t self.m_offset_future c e)
  | inr early ↦
      subst (λ (x : ClockTai). (s : BulletinState) × (x.m_state ≡ some s))
        (sym (if_false (is_due self.m_state_last_updated t) _ _ early)) (c, e)
]

-- What a part of `get_offset` leaves, for the thread that runs it.
abbrev IsPart : List Origin → ClockTai → Progress → Type 0
IsPart log before p =
    IsClock log p.self × KeepsState before.m_state p.self.m_state × IsCall log p.self.m_state p.call

-- A refresh ends the call, once a state is in use.
refreshed-IsPart :
    (log : List Origin) (before self : ClockTai) (t : ℕ) (file : Option (List ℕ))
    (c : BulletinState)
    → IsClock log self
    → self.m_state ≡ some c
    → IsPart log before (record {
      self = refresh self t;
      call = answered (offset_of (refresh self t).m_state);
      cache_file = file;
    })
refreshed-IsPart log before self t file c h e =
    let (s, f) = refresh-some self t c e in
    let clock = refresh-IsClock log self t h in
    (clock, (λ b g. (s, f)), offset_of-IsAnswered log (refresh self t).m_state s clock.0 f)

enter-IsPart :
    (log : List Origin) (self : ClockTai) (env : Environment) (t : ℕ) (o : Option BulletinState)
    → IsClock log self
    → self.m_state ≡ o
    → IsPart log self (enter self env t o)
unfolding enter
enter-IsPart log self env t none h e = (h, (λ s g. (s, g)), tt)
enter-IsPart log self env t (some c) h e = refreshed-IsPart log self self t env.cache_file c h e

get_offset-IsPart :
    (log : List Origin) (self : ClockTai) (env : Environment) (t : ℕ) (c : Call)
    → IsClock log self
    → IsCall log self.m_state c
    → IsPart (origins self env c ++ log) self (get_offset self env t c)
unfolding get_offset
get_offset-IsPart log self env t idle h k = enter-IsPart log self env t self.m_state h refl
get_offset-IsPart log self env t (unlocked time_now) h k =
    let o = selection env self.m_bulletin_urls self.m_bulletin in
    (
      (
        IsFrom-more (o ∷ []) log self.m_state h.0,
        IsFromFuture-more (o ∷ []) log self.m_offset_future h.1,
      ),
      (λ s g. (s, g)),
      chosen-IsCall log env self.m_bulletin_urls self.m_bulletin
          (first_selection self env).m_bulletin (first_selection self env).selected time_now
          self.m_state refl (get_valid_offset-IsChosen env self.m_bulletin_urls self.m_bulletin),
    )
get_offset-IsPart log self env t (selected time_now none) h k = (h, (λ s g. (s, g)), k)
get_offset-IsPart log self env t (selected time_now (some s)) h k =
    ((k, h.1), (λ s' g. (s, refl)), (s, refl))
get_offset-IsPart log self env t (assigned time_now) h (s, e) =
    refreshed-IsPart log self (record self { m_state_last_updated = some time_now }) time_now
      env.cache_file s h e
get_offset-IsPart log self env t (answered offset) h k = (h, (λ s g. (s, g)), tt)

finish_with-IsClock :
    (log : List Origin) (self : ClockTai) (env : Environment) (f : Future)
    → IsClock log self
    → f ≡ pending
    → IsClock (selection env self.m_bulletin_urls self.m_bulletin ∷ log) (finish_with self env f)
unfolding finish_with
finish_with-IsClock log self env no_future h e = absurd cc
finish_with-IsClock log self env pending h e =
    let o = selection env self.m_bulletin_urls self.m_bulletin in
    (
      IsFrom-more (o ∷ []) log self.m_state h.0,
      chosen-IsFrom log env self.m_bulletin_urls self.m_bulletin
          (first_selection self env).m_bulletin (first_selection self env).selected refl
          (get_valid_offset-IsChosen env self.m_bulletin_urls self.m_bulletin),
    )
finish_with-IsClock log self env (done result) h e = absurd cc

finish_with-keeps :
    (self : ClockTai) (env : Environment) (f : Future)
    → (finish_with self env f).m_state ≡ self.m_state
unfolding finish_with
finish_with-keeps self env no_future = refl
finish_with-keeps self env pending = refl
finish_with-keeps self env (done result) = refl

-- All the threads, after a step that leaves them where they are.
others-IsSound :
    (os log : List Origin) (th : Threads) (clock : ClockTai)
    → IsSound log th
    → IsClock (os ++ log) clock
    → KeepsState th.clock.m_state clock.m_state
    → IsSound (os ++ log) (record th { clock = clock })
others-IsSound os log th clock h c k = record {
  current = c.0;
  downloaded = c.1;
  calls = λ i. IsCall-more os log th.clock.m_state clock.m_state (th.call i) k (h.calls i);
}

-- And after one that moves a thread.
moved-IsSound :
    (os log : List Origin) (th : Threads) (i : ℕ) (p : Progress)
    → IsSound log th
    → IsPart (os ++ log) th.clock p
    → IsSound (os ++ log) (record { clock = p.self; call = update th.call i p.call })
moved-IsSound os log th i p h (c, k, own) = record {
  current = c.0;
  downloaded = c.1;
  calls = λ j. at (i == j) j;
}
  where
    at : (b : Bool) (j : ℕ) → IsCall (os ++ log) p.self.m_state (if b then p.call else th.call j)
    at true j = own
    at false j = IsCall-more os log th.clock.m_state p.self.m_state (th.call j) k (h.calls j)

Step-IsSound :
    {log os : List Origin} {th next : Threads}
    → Step th os next
    → IsSound log th
    → IsSound (os ++ log) next
unfolding finish set_tai_utc_offset set_url
Step-IsSound {log} (runs {th} i env t) h =
    moved-IsSound (origins th.clock env (th.call i)) log th i
      (get_offset th.clock env t (th.call i)) h
      (get_offset-IsPart log th.clock env t (th.call i) (h.current, h.downloaded) (h.calls i))
Step-IsSound {log} (finishes {th} env e) h =
    others-IsSound (selection env th.clock.m_bulletin_urls th.clock.m_bulletin ∷ []) log th
      (finish th.clock env) h
      (finish_with-IsClock log th.clock env th.clock.m_offset_future (h.current, h.downloaded) e)
      (λ s g. (s, finish_with-keeps th.clock env th.clock.m_offset_future ∙ g))
Step-IsSound {log} (sets_offset {th} now t offset) h =
    others-IsSound (by_hand now offset ∷ []) log th (set_tai_utc_offset th.clock now t offset) h
      (
        inl refl,
        IsFromFuture-more (by_hand now offset ∷ []) log th.clock.m_offset_future h.downloaded,
      )
      (λ s g. (state now (create_with_fixed_offset now offset), refl))
Step-IsSound {log} (sets_url {th} now value) h =
    others-IsSound [] log th (set_url th.clock now value) h (h.current, h.downloaded)
      (λ s g. (s, g))

Run-IsSound :
    {first : Threads} {log : List Origin} {th : Threads}
    → IsSound [] first
    → Run first log th
    → IsSound log th
Run-IsSound h start = h
Run-IsSound h (followed_by r s) = Step-IsSound s (Run-IsSound h r)

-- A new object, with every thread outside.
abbrev pub started : List (List ℕ) → List (List ℕ) → Threads
started urls defaults = record { clock = new urls defaults; call = λ i. idle }

started-IsSound : (urls defaults : List (List ℕ)) → IsSound [] (started urls defaults)
unfolding new
started-IsSound urls defaults = record { current = tt; downloaded = tt; calls = λ i. tt }

-- In every interleaving of the parts of `get_offset` in any number of threads, ends of downloads,
-- overrides of the offset and changes of the URLs, from a new object on: each offset that a call
-- returns is that of a valid state which was set by hand in the run, or which a call of
-- `get_valid_offset` in the run selected, as the state of one of its candidates; and where a call
-- fails, a call of `get_valid_offset` in the run had no valid candidate.
pub Run-IsAnswered :
    (urls defaults : List (List ℕ)) {log : List Origin} {th : Threads} (i : ℕ) (offset : Option ℤ)
    → Run (started urls defaults) log th
    → th.call i ≡ answered offset
    → IsAnswered log offset
Run-IsAnswered urls defaults {log} {th} i offset r e =
    subst (IsCall log th.clock.m_state) e ((Run-IsSound (started-IsSound urls defaults) r).calls i)
