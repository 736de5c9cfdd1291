-- ===== src/ClockTai/Refresh/Sound.antt =====
-- The offsets that ClockTAI gives, with several threads in `get_offset`.
use odr_source_companion.Base.{
  ℕ, ◌==◌, if◌then◌else◌, ◌⊎◌, true, false, inl, inr, List, [], ◌∷◌, ◌++◌, All, Option, none, some,
  ◌≡◌, refl, sym, ap, ◌∙◌,
}
use odr_source_companion.Base.Int.{ℤ}
use odr_source_companion.ClockTai.Bulletin.{
  BulletinState, Bulletin, state, create_with_fixed_offset,
}
use odr_source_companion.ClockTai.Selection.{Environment, get_valid_offset}
use odr_source_companion.ClockTai.Selection.Choice.{candidates, IsChosen}
use odr_source_companion.ClockTai.Refresh.{
  Future, no_future, pending, done, ClockTai, offset_of, Call, idle, unlocked, selected, assigned,
  answered, get_offset, finish, set_tai_utc_offset, set_url,
}

-- Where a state can come from: an offset set by hand, or a call of `get_valid_offset` with these URLs
-- and this current bulletin.
pub data Origin : Type 0 where
  by_hand : ℕ → ℤ → Origin
  selection : Environment → List (List ℕ) → Bulletin → Origin

-- The state that the origin gave: that of the override, or the one that the call selected, which is a
-- good choice among its candidates.
abbrev pub Gave : Origin → BulletinState → Type 0
Gave (by_hand now offset) s = state now (create_with_fixed_offset now offset) ≡ s
Gave (selection env urls m_bulletin) s =
    ((get_valid_offset env urls m_bulletin).selected ≡ some s)
    × (b : Bulletin) × IsChosen env (candidates env urls m_bulletin) b (some s)

-- The call selected nothing, and no candidate was valid.
abbrev pub GaveNone : Origin → Type 0
GaveNone (by_hand now offset) = ⊥
GaveNone (selection env urls m_bulletin) =
    ((get_valid_offset env urls m_bulletin).selected ≡ none)
    × All (λ b. (state env.now b).valid ≡ false) (candidates env urls m_bulletin)

abbrev pub CameFrom : List Origin → BulletinState → Type 0
CameFrom [] s = ⊥
CameFrom (o ∷ log) s = Gave o s ⊎ CameFrom log s

abbrev pub HasFailed : List Origin → Type 0
HasFailed [] = ⊥
HasFailed (o ∷ log) = GaveNone o ⊎ HasFailed log

-- The state of an Option, if any, is in the log.
abbrev pub IsFrom : List Origin → Option BulletinState → Type 0
IsFrom log none = Unit
IsFrom log (some s) = CameFrom log s

abbrev pub IsFromFuture : List Origin → Future → Type 0
IsFromFuture log no_future = Unit
IsFromFuture log pending = Unit
IsFromFuture log (done result) = IsFrom log result

-- What a call of `get_offset` may end with: the offset of a valid state that came from an origin in
-- the log; or a failure, after a selection in the log without a valid candidate.
abbrev pub IsAnswered : List Origin → Option ℤ → Type 0
IsAnswered log none = HasFailed log
IsAnswered log (some offset) =
    (s : BulletinState) × CameFrom log s × (s.valid ≡ true) × (s.offset ≡ offset)

-- What is known of a thread at its place, with the state in use.
abbrev pub IsCall : List Origin → Option BulletinState → Call → Type 0
IsCall log m_state idle = Unit
IsCall log m_state (unlocked t) = Unit
IsCall log m_state (selected t none) = HasFailed log
IsCall log m_state (selected t (some s)) = CameFrom log s
IsCall log m_state (assigned t) = (s : BulletinState) × (m_state ≡ some s)
IsCall log m_state (answered offset) = IsAnswered log offset

-- The object and the threads, by their numbers.
pub record Threads : Type 0 where
  pub clock : ClockTai
  pub call : ℕ → Call

pub record IsSound (log : List Origin) (th : Threads) : Type 0 where
  pub current : IsFrom log th.clock.m_state
  pub downloaded : IsFromFuture log th.clock.m_offset_future
  pub calls : (i : ℕ) → IsCall log th.clock.m_state (th.call i)

abbrev pub update : (ℕ → Call) → ℕ → Call → ℕ → Call
update call i c j = if i == j then c else call j

-- The origin of what a part of `get_offset` finds out.
abbrev pub origins : ClockTai → Environment → Call → List Origin
origins self env (unlocked t) = selection env self.m_bulletin_urls self.m_bulletin ∷ []
origins self env idle = []
origins self env (selected t result) = []
origins self env (assigned t) = []
origins self env (answered offset) = []

-- What may happen next, and the origins that are new: a part of `get_offset` in a thread, the end of a
-- download, and the parameters of the remote control.
pub data Step : Threads → List Origin → Threads → Type 0 where
  runs :
      {th : Threads} (i : ℕ) (env : Environment) (time_now : ℕ)
      → Step th (origins th.clock env (th.call i)) (record {
        clock = (get_offset th.clock env time_now (th.call i)).self;
        call = update th.call i (get_offset th.clock env time_now (th.call i)).call;
      })
  finishes :
      {th : Threads} (env : Environment)
      → th.clock.m_offset_future ≡ pending
      → Step th
          (selection env th.clock.m_bulletin_urls th.clock.m_bulletin ∷ [])
          (record th { clock = finish th.clock env })
  sets_offset :
      {th : Threads} (now t : ℕ) (offset : ℤ)
      → Step th
          (by_hand now offset ∷ [])
          (record th { clock = set_tai_utc_offset th.clock now t offset })
  sets_url :
      {th : Threads} (now : ℕ) (value : List ℕ)
      → Step th [] (record th { clock = set_url th.clock now value })

-- Steps one after the other, with all the origins, the newest first.
pub data Run (first : Threads) : List Origin → Threads → Type 0 where
  start : Run first [] first
  followed_by :
      {log origins : List Origin} {th next : Threads}
      → Run first log th
      → Step th origins next
      → Run first (origins ++ log) next

-- A longer log holds what the shorter one held.
CameFrom-more : (os log : List Origin) (s : BulletinState) → CameFrom log s → CameFrom (os ++ log) s
CameFrom-more [] log s h = h
CameFrom-more (o ∷ os) log s h = inr (CameFrom-more os log s h)

HasFailed-more : (os log : List Origin) → HasFailed log → HasFailed (os ++ log)
HasFailed-more [] log h = h
HasFailed-more (o ∷ os) log h = inr (HasFailed-more os log h)

pub IsFrom-more :
    (os log : List Origin) (o : Option BulletinState) → IsFrom log o → IsFrom (os ++ log) o
IsFrom-more os log none h = tt
IsFrom-more os log (some s) h = CameFrom-more os log s h

pub IsFromFuture-more :
    (os log : List Origin) (f : Future) → IsFromFuture log f → IsFromFuture (os ++ log) f
IsFromFuture-more os log no_future h = tt
IsFromFuture-more os log pending h = tt
IsFromFuture-more os log (done result) h = IsFrom-more os log result h

IsAnswered-more :
    (os log : List Origin) (o : Option ℤ) → IsAnswered log o → IsAnswered (os ++ log) o
IsAnswered-more os log none h = HasFailed-more os log h
IsAnswered-more os log (some offset) (s, from, valid, same) =
    (s, CameFrom-more os log s from, valid, same)

-- Nobody takes a state out of use.
abbrev pub KeepsState : Option BulletinState → Option BulletinState → Type 0
KeepsState before after =
    (s : BulletinState) → before ≡ some s → (s' : BulletinState) × (after ≡ some s')

pub IsCall-more :
    (os log : List Origin) (before after : Option BulletinState) (c : Call)
    → KeepsState before after
    → IsCall log before c
    → IsCall (os ++ log) after c
IsCall-more os log before after idle k h = tt
IsCall-more os log before after (unlocked t) k h = tt
IsCall-more os log before after (selected t none) k h = HasFailed-more os log h
IsCall-more os log before after (selected t (some s)) k h = CameFrom-more os log s h
IsCall-more os log before after (assigned t) k (s, e) = k s e
IsCall-more os log before after (answered offset) k h = IsAnswered-more os log offset h

created-valid :
    (now : ℕ) (offset : ℤ) → (state now (create_with_fixed_offset now offset)).valid ≡ true
unfolding state create_with_fixed_offset
created-valid now offset = refl

Gave-valid : (o : Origin) (s : BulletinState) → Gave o s → s.valid ≡ true
Gave-valid (by_hand now offset) s h =
    ap (λ (t : BulletinState). t.valid) (sym h) ∙ created-valid now offset
Gave-valid (selection env urls m_bulletin) s h = h.2.0

CameFrom-valid : (log : List Origin) (s : BulletinState) → CameFrom log s → s.valid ≡ true
CameFrom-valid [] s h = absurd h
CameFrom-valid (o ∷ log) s (inl h) = Gave-valid o s h
CameFrom-valid (o ∷ log) s (inr h) = CameFrom-valid log s h

pub offset_of-IsAnswered :
    (log : List Origin) (o : Option BulletinState) (s : BulletinState)
    → IsFrom log o
    → o ≡ some s
    → IsAnswered log (offset_of o)
offset_of-IsAnswered log none s h e = absurd cc
offset_of-IsAnswered log (some c) s h e = (c, h, CameFrom-valid log c h, refl)

pub chosen-IsCall :
    (log : List Origin) (env : Environment) (urls : List (List ℕ)) (m_bulletin b : Bulletin)
    (o : Option BulletinState) (t : ℕ) (m_state : Option BulletinState)
    → (get_valid_offset env urls m_bulletin).selected ≡ o
    → IsChosen env (candidates env urls m_bulletin) b o
    → IsCall (selection env urls m_bulletin ∷ log) m_state (selected t o)
chosen-IsCall log env urls m_bulletin b none t m_state e h = inl (e, h)
chosen-IsCall log env urls m_bulletin b (some s) t m_state e h = inl (e, b, h)

pub chosen-IsFrom :
    (log : List Origin) (env : Environment) (urls : List (List ℕ)) (m_bulletin b : Bulletin)
    (o : Option BulletinState)
    → (get_valid_offset env urls m_bulletin).selected ≡ o
    → IsChosen env (candidates env urls m_bulletin) b o
    → IsFrom (selection env urls m_bulletin ∷ log) o
chosen-IsFrom log env urls m_bulletin b none e h = tt
chosen-IsFrom log env urls m_bulletin b (some s) e h = inl (e, b, h)
