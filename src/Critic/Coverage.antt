-- ===== src/Critic/Coverage.antt =====
-- internal/critic/coverage.go: which kinds of finding the recent reviews covered least.
pub mod Laws
use agentic_dev_harness.Shared.{
  ℕ, zero, suc, ◌+◌, Bool, true, false, not, ◌&&◌, Option, none, some, List, [], ◌∷◌, map, String,
  ◌==◌, if◌then◌else◌, ltb, eqb, filter, has, sort_strings,
}
use agentic_dev_harness.Adh.Finding.{Finding, Kind, kind_text}

pub record CoverageEntry : Type 0 where
  pub arc : String
  pub kinds : List String

-- The loop of `FindingKinds`: `seen` holds the kinds that `kinds` does.
unfoldable pub collect_kinds : List Finding → List String → List String
unfolding kind_text
collect_kinds [] kinds = kinds
collect_kinds (f ∷ fs) kinds =
    let kind = kind_text f.kind in
    collect_kinds fs (if not (kind == "") && not (has kind kinds) then kind ∷ kinds else kinds)

-- `FindingKinds`
unfoldable pub finding_kinds_of : List Finding → List String
unfolding collect_kinds
finding_kinds_of findings = sort_strings (collect_kinds findings [])

-- How often a name stands in a list.
unfoldable pub occurrences : String → List String → ℕ
occurrences name [] = 0
occurrences name (x ∷ xs) = let rest = occurrences name xs in if x == name then suc rest else rest

-- `freq[kind]` of `UnderCovered`, the counts of the entries' kinds
unfoldable pub frequency : List CoverageEntry → Kind → ℕ
unfolding occurrences kind_text
frequency [] kind = 0
frequency (e ∷ es) kind = occurrences (kind_text kind) e.kinds + frequency es kind

-- The loop that finds `least`; `none` is -1.
unfoldable pub least_from : (Kind → ℕ) → List Kind → Option ℕ → Option ℕ
least_from freq [] least = least
least_from freq (k ∷ ks) none = least_from freq ks (some (freq k))
least_from freq (k ∷ ks) (some least) =
    least_from freq ks (if ltb (freq k) least then some (freq k) else some least)

abbrev pub equals_least : Option ℕ → ℕ → Bool
equals_least none n = false
equals_least (some least) n = eqb n least

-- `UnderCovered`
unfoldable pub under_covered : List CoverageEntry → List Kind → List Kind
unfolding least_from
under_covered entries all_kinds =
    let least = least_from (frequency entries) all_kinds none in
    filter (λ k. equals_least least (frequency entries k)) all_kinds
