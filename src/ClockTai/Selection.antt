-- ===== src/ClockTai/Selection.antt =====
-- ClockTAI::get_valid_offset of lib/ClockTAI.cpp: which bulletin gives the offset.
pub mod Order
pub mod Choice
use odr_source_companion.Base.{
  ℕ, if◌then◌else◌, Bool, true, false, List, [], ◌∷◌, ◌++◌, Option, none, some,
}
use odr_source_companion.Base.Int.{ℤ, lt_int}
use odr_source_companion.ClockTai.Bulletin.{
  BulletinState, Bulletin, Contents, bulletin_text, usable, state, load_from_file, store_to_cache,
}

-- What does not depend on the program: the time, what each URL gives, `none` for a runtime_error, and
-- the name and the content of the cache file.
pub record Environment : Type 0 where
  pub now : ℕ
  pub download : List ℕ → Option (List ℕ)
  pub tai_cache_location : List ℕ
  pub cache_file : Option (List ℕ)

-- The member and the file that the call changes, and what it returns; `none` is download_failed.
pub record Selection : Type 0 where
  pub m_bulletin : Bulletin
  pub cache_file : Option (List ℕ)
  pub selected : Option BulletinState

-- Bulletin::download_from_url
unfoldable pub download_from_url : Environment → List ℕ → Option Bulletin
download_from_url env url = elim (env.download url) [
  | none ↦ none
  | some bulletin_data ↦
      some (record { source = url; bulletin_or_override = bulletin_text bulletin_data })
]

-- How the loop over the URLs ends: with a bulletin that is usable, or with all bulletins so far.
pub data Tried : Type 0 where
  found : Bulletin → Tried
  collected : List Bulletin → Tried

unfoldable pub try_urls : Environment → List (List ℕ) → List Bulletin → Tried
try_urls env [] bulletins = collected bulletins
try_urls env (url ∷ urls) bulletins = elim (download_from_url env url) [
  | none ↦ try_urls env urls bulletins
  | some new_bulletin ↦ elim (usable env.now (state env.now new_bulletin)) [
    | true ↦ found new_bulletin
    | false ↦ try_urls env urls (bulletins ++ new_bulletin ∷ [])
  ]
]

-- std::sort by the expiry, the largest first. The order of equal ones, which it leaves open, is kept.
unfoldable pub insert : ℕ → Bulletin → List Bulletin → List Bulletin
insert now b [] = b ∷ []
insert now b (a ∷ bulletins) =
    let rest = insert now b bulletins in
    if lt_int (state now a).expires_at (state now b).expires_at then b ∷ a ∷ bulletins else a ∷ rest

unfoldable pub sort : ℕ → List Bulletin → List Bulletin
unfolding insert
sort now [] = []
sort now (b ∷ bulletins) = insert now b (sort now bulletins)

unfoldable pub first_valid : ℕ → List Bulletin → Option Bulletin
first_valid now [] = none
first_valid now (b ∷ bulletins) =
    let rest = first_valid now bulletins in if (state now b).valid then some b else rest

-- After the sort.
abbrev pub take_expired : Environment → Bulletin → Option (List ℕ) → Option Bulletin → Selection
take_expired env m_bulletin cache_file none = record {
  m_bulletin = m_bulletin;
  cache_file = cache_file;
  selected = none;
}
take_expired env m_bulletin cache_file (some b) = record {
  m_bulletin = b;
  cache_file = cache_file;
  selected = some (state env.now b);
}

-- After the loop over the URLs.
abbrev pub after_urls : Environment → Bulletin → Tried → Selection
after_urls env m_bulletin (found b) = record {
  m_bulletin = b;
  cache_file = store_to_cache b env.cache_file;
  selected = some (state env.now b);
}
after_urls env m_bulletin (collected bulletins) =
    take_expired env m_bulletin env.cache_file (first_valid env.now (sort env.now bulletins))

unfoldable pub cache_bulletin : Environment → Bulletin
cache_bulletin env = load_from_file env.tai_cache_location env.cache_file

unfoldable pub get_valid_offset : Environment → List (List ℕ) → Bulletin → Selection
unfolding try_urls sort first_valid cache_bulletin
get_valid_offset env m_bulletin_urls m_bulletin =
    if usable env.now (state env.now m_bulletin)
    then record {
      m_bulletin = m_bulletin;
      cache_file = env.cache_file;
      selected = some (state env.now m_bulletin);
    }
    else if usable env.now (state env.now (cache_bulletin env))
    then record {
      m_bulletin = cache_bulletin env;
      cache_file = env.cache_file;
      selected = some (state env.now (cache_bulletin env));
    }
    else after_urls env m_bulletin
        (try_urls env m_bulletin_urls (m_bulletin ∷ cache_bulletin env ∷ []))
