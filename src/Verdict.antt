-- ===== src/Verdict.antt =====
-- internal/verdict/verdict.go: when a measured change counts as proven, and the guard against a
-- task that stands in two splits. Floats are a parameter.
pub mod Laws
use agentic_dev_harness.Shared.{
  Bool, true, false, not, ◌&&◌, ◌||◌, Option, none, some, List, [], ◌∷◌, String, ◌==◌,
  if◌then◌else◌, concat, ltb, length, any, all, lookup, insert,
}
use agentic_dev_harness.Adh.Error.{Error, coded, invalid}
use agentic_dev_harness.Float.{Float}

-- `Verdict`
pub data Adoption : Type 0 where
  elevate directional replication_missing kill : Adoption

-- `Outcome`
pub record Measured (F : Type 0) : Type 0 where
  pub delta : F
  pub significant : Bool

pub record SplitAssignment : Type 0 where
  pub id : String
  pub split : String

module _ (float : Float) where
  open float use {F, zero, lt, le}

  -- `Decide`
  unfoldable pub decide_adoption : Measured F → Measured F → F → Bool → Adoption
  decide_adoption primary replication min_effect has_replication =
      if lt primary.delta zero
      then kill
      else if not has_replication
      then replication_missing
      else if le min_effect primary.delta && (le zero replication.delta && replication.significant)
      then elevate
      else directional

  -- `anyRegressed`
  unfoldable pub any_regressed : List (Measured F) → Bool
  any_regressed runs = any (λ r. lt r.delta zero) runs

  -- `allElevate`
  unfoldable pub all_elevate : List (Measured F) → F → Bool
  all_elevate runs min_effect = all (λ r. not (lt r.delta min_effect || not r.significant)) runs

  -- `Replicate`
  unfoldable pub replicate : List (Measured F) → F → Adoption
  unfolding any_regressed all_elevate
  replicate runs min_effect =
      if any_regressed runs
      then kill
      else if ltb (length runs) 2
      then replication_missing
      else if all_elevate runs min_effect
      then elevate
      else directional

abbrev pub leaked : String → String → String → Error
leaked id prev split =
    coded invalid
      (concat ("split leakage: task " ∷ id ∷ " is in both " ∷ prev ∷ " and " ∷ split ∷ []))

-- The split that an id was seen in is another one.
abbrev pub differs : Option String → String → Bool
differs none split = false
differs (some prev) split = not (prev == split)

abbrev pub prev_or_empty : Option String → String
prev_or_empty none = ""
prev_or_empty (some prev) = prev

-- The loop of `ValidateSplits`, with the splits seen.
unfoldable pub check_splits : List (String × String) → List SplitAssignment → Option Error
unfolding lookup insert
check_splits seen [] = none
check_splits seen (a ∷ as_) =
    let rest = check_splits (insert a.id a.split seen) as_ in
    if differs (lookup a.id seen) a.split
    then some (leaked a.id (prev_or_empty (lookup a.id seen)) a.split)
    else rest

-- `ValidateSplits`
unfoldable pub validate_splits : List SplitAssignment → Option Error
unfolding check_splits
validate_splits assignments = check_splits [] assignments
