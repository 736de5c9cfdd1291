-- ===== src/ClockTai/Bulletin/Cache.antt =====
-- The cache file of a bulletin.
use odr_source_companion.Base.{
  ℕ, ◌≤◌, ◌<◌, ◌≢◌, length-append, length-drop, List, [], ◌++◌, length, drop, drop-all, append-nil,
  some, ◌≡◌, refl, ap, ◌∙◌, arith,
}
use odr_source_companion.ClockTai.Bulletin.{
  Bulletin, Contents, bulletin_text, override, load_from_file, store_to_cache,
}

-- The bulletin with this text.
abbrev pub with_text : List ℕ → List ℕ → Bulletin
with_text source bytes = record { source = source; bulletin_or_override = bulletin_text bytes }

text_of : Contents → List ℕ
text_of (bulletin_text bytes) = bytes
text_of (override offset expires_at) = []

-- A bulletin that is stored over an older file is loaded again with what the older file held behind
-- its length. So it is loaded as it was stored just where the older file is not longer.
pub load-store :
    (source name bytes old : List ℕ)
    → (load_from_file name (store_to_cache (with_text source bytes) (some old))
        ≡ with_text name (bytes ++ drop (length bytes) old))
      × (length old ≤ length bytes
          → load_from_file name (store_to_cache (with_text source bytes) (some old))
            ≡ with_text name bytes)
      × (length bytes < length old
          → load_from_file name (store_to_cache (with_text source bytes) (some old))
            ≢ with_text name bytes)
unfolding load_from_file store_to_cache text_of
load-store source name bytes old = (
  refl,
  λ h.
      ap (with_text name)
        (ap (λ (rest : List ℕ). bytes ++ rest) (drop-all (length bytes) old h) ∙ append-nil bytes),
  λ h e.
      let n : length (bytes ++ drop (length bytes) old) ≡ length bytes =
        ap (λ (b : Bulletin). length (text_of b.bulletin_or_override)) e in
      absurd (
        omega (
          arith,
          h,
          n,
          length-append bytes (drop (length bytes) old),
          length-drop (length bytes) old,
        )),
)
