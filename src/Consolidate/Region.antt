-- ===== src/Consolidate/Region.antt =====
-- internal/consolidate/consolidate.go: the protected region of an artifact, which alone is edited.
pub mod Laws
pub mod Reading
use Prim.Native.Char.{code}
use Prim.Native.String
use Prim.Native.String.{len}
use agentic_dev_harness.Shared.{
  ℕ, Bool, true, false, Option, none, some, String, List, [], ◌∷◌, ◌==◌, if◌then◌else◌, concat, ltb,
  eqb, cut, trim_space, trim_right_of,
}

abbrev pub start_mark : String → String
start_mark marker = concat ("<!-- " ∷ marker ∷ " START -->" ∷ [])

abbrev pub end_mark : String → String
end_mark marker = concat ("<!-- " ∷ marker ∷ " END -->" ∷ [])

-- `strings.HasSuffix(s, "\n")`
unfoldable pub ends_line : String → Bool
ends_line String.[] = false
ends_line (String.◌∷◌ c s) = let rest = ends_line s in if s == "" then eqb (code c) 10 else rest

-- The text between the marks is `learned` without its last line ends.
abbrev pub block : String → String → String
block learned marker =
    concat (start_mark marker ∷ "\n" ∷ trim_right_of 10 learned ∷ "\n" ∷ end_mark marker ∷ [])

abbrev after_end : String → Option (String × String) → Option (String × String)
after_end before none = none
after_end before (some (upto, after)) =
    if ltb (len before) (len upto) then some (before, after) else none

abbrev surroundings : Option (String × String) → String → String → Option (String × String)
surroundings none artifact end = none
surroundings (some (before, _)) artifact end = after_end before (cut end artifact)

-- The text before the first start mark and behind the first end mark, if the latter stands later:
-- `si >= 0 && ei > si`.
unfoldable pub region : String → String → Option (String × String)
unfolding cut
region artifact marker = surroundings (cut (start_mark marker) artifact) artifact (end_mark marker)

abbrev pub appended : String → String → String → String
appended artifact learned marker =
    if artifact == ""
    then concat (block learned marker ∷ "\n" ∷ [])
    else concat (
        artifact ∷ (if ends_line artifact then "\n" else "\n\n") ∷ block learned marker ∷ "\n" ∷ [])

abbrev spliced : Option (String × String) → String → String → String → String
spliced none artifact learned marker = appended artifact learned marker
spliced (some (before, after)) artifact learned marker =
    concat (before ∷ block learned marker ∷ after ∷ [])

-- `applyLearned`
unfoldable pub apply_learned : String → String → String → String
unfolding region trim_right_of ends_line
apply_learned artifact learned marker = spliced (region artifact marker) artifact learned marker

abbrev body_of : Option (String × String) → String
body_of none = ""
body_of (some (body, _)) = trim_space body

abbrev after_start : Option (String × String) → String → String
after_start none end = ""
after_start (some (_, after)) end = body_of (cut end after)

-- `currentLearned`
unfoldable pub current_learned : String → String → String
unfolding cut trim_space
current_learned artifact marker = after_start (cut (start_mark marker) artifact) (end_mark marker)
