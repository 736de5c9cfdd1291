-- ===== src/ClockTai/Text/Urls.antt =====
-- The lines of a text, and lists of URLs.
use odr_source_companion.Base.{
  ℕ, ◌<◌, ◌==◌, ==_iff, if_true, if_false, false, List, [], ◌∷◌, ◌++◌, length, All, ◌≡◌, ◌≢◌, refl,
  ap, ◌∙◌, arith,
}
use odr_source_companion.ClockTai.Text.{
  prepend, getlines, split_pipe_separated_string, join_string_with_pipe,
}

-- No character of the text is `delim`.
abbrev pub Lacks : ℕ → List ℕ → Type 0
Lacks delim text = All (λ c. c ≢ delim) text

differs : (a b : ℕ) → a ≢ b → (a == b) ≡ false
differs a b h = ground arith

pub getlines_line :
    (delim : ℕ) (line rest : List ℕ)
    → Lacks delim line
    → getlines delim (line ++ delim ∷ rest) ≡ line ∷ getlines delim rest
unfolding getlines
getlines_line delim [] rest h = if_true _ _ _ ((==_iff delim delim).1 refl)
getlines_line delim (c ∷ line) rest h =
    if_false _ _ _ (differs c delim h.0) ∙ ap (prepend c) (getlines_line delim line rest h.1)

pub getlines_last :
    (delim c : ℕ) (line : List ℕ)
    → Lacks delim (c ∷ line)
    → getlines delim (c ∷ line) ≡ (c ∷ line) ∷ []
unfolding getlines
getlines_last delim c [] h = if_false _ _ _ (differs c delim h.0)
getlines_last delim c (d ∷ line) h =
    if_false _ _ _ (differs c delim h.0) ∙ ap (prepend c) (getlines_last delim d line h.1)

-- URLs that can be told apart: none holds a pipe, and the last one is not empty.
abbrev pub AreSeparable : List (List ℕ) → Type 0
AreSeparable [] = Unit
AreSeparable (url ∷ []) = Lacks b'|' url × (0 < length url)
AreSeparable (url ∷ next ∷ urls) = Lacks b'|' url × AreSeparable (next ∷ urls)

-- URLs that hold no pipe, the last of them not empty, are found again, in their order, when the text
-- that joins them is split.
pub split-join :
    (urls : List (List ℕ))
    → AreSeparable urls
    → split_pipe_separated_string (join_string_with_pipe urls) ≡ urls
unfolding split_pipe_separated_string join_string_with_pipe
split-join [] h = refl
split-join ([] ∷ []) h = absurd (omega (arith, h.1))
split-join ((c ∷ url) ∷ []) h = getlines_last b'|' c url h.0
split-join (url ∷ next ∷ urls) h =
    getlines_line b'|' url (join_string_with_pipe (next ∷ urls)) h.0
    ∙ ap (λ (l : List (List ℕ)). url ∷ l) (split-join (next ∷ urls) h.1)
