-- ===== src/Consolidate/Signals.antt =====
-- internal/consolidate/consolidate.go: what is learnt from the history of closed arcs. Lower case is
-- a parameter.
use agentic_dev_harness.Shared.{
  Bool, true, false, not, ◌&&◌, Option, none, some, List, [], ◌∷◌, String, if◌then◌else◌, any,
  concat_map, contains, cut, trim_space,
}
use agentic_dev_harness.Adh.Stage.{Status, closed, resolution_text}
use agentic_dev_harness.Adh.Arc.{Arc}

-- `Signal`
pub record Signal : Type 0 where
  pub arc : String
  pub resolution : String
  pub failures : List String
  pub successes : List String

abbrev pub failure_words : List String
failure_words = "fail" ∷ "error" ∷ "missing" ∷ "timeout" ∷ "regress" ∷ []

abbrev pub success_words : List String
success_words = "pass" ∷ "ok" ∷ "clean" ∷ "merged" ∷ "shipped" ∷ "verified" ∷ "green" ∷ []

abbrev entry : Option (String × String) → String → String
entry none line = line
entry (some (stage, rest)) line = trim_space rest

-- The text of a history line, without the `stage: ` in front.
unfoldable pub line_text : String → String
unfolding cut trim_space
line_text line = entry (cut ": " line) line

module _ (to_lower : String → String) where
  -- `looksLikeFailure`
  unfoldable pub looks_like_failure : String → Bool
  unfolding contains
  looks_like_failure s = any (contains (to_lower s)) failure_words

  -- `looksLikeSuccess`
  unfoldable pub looks_like_success : String → Bool
  unfolding contains
  looks_like_success s = any (contains (to_lower s)) success_words

  -- `failureLines`
  unfoldable pub failure_lines : List String → List String
  unfolding line_text looks_like_failure
  failure_lines [] = []
  failure_lines (line ∷ history) =
      let rest = failure_lines history in
      if looks_like_failure (line_text line) then line_text line ∷ rest else rest

  -- `successLines`
  unfoldable pub success_lines : List String → List String
  unfolding line_text looks_like_failure looks_like_success
  success_lines [] = []
  success_lines (line ∷ history) =
      let rest = success_lines history in
      if not (looks_like_failure (line_text line)) && looks_like_success (line_text line)
      then line_text line ∷ rest
      else rest

  abbrev is_closed : Status → Bool
  is_closed closed = true
  is_closed _ = false

  module _ {U : Type 0} where
    -- `Harvest`
    unfoldable pub harvest : List (Arc U) → List Signal
    unfolding failure_lines success_lines resolution_text
    harvest [] = []
    harvest (arc ∷ arcs) =
        let rest = harvest arcs in
        if is_closed arc.status
        then record {
          arc = arc.id;
          resolution = resolution_text arc.resolution;
          failures = failure_lines arc.history;
          successes = success_lines arc.history;
        }
          ∷ rest
        else rest

-- `collectFailures` and `collectSuccesses`
abbrev pub collect_failures : List Signal → List String
collect_failures signals = concat_map (λ s. s.failures) signals

abbrev pub collect_successes : List Signal → List String
collect_successes signals = concat_map (λ s. s.successes) signals
