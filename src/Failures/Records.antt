-- ===== src/Failures/Records.antt =====
-- internal/failures/record.go: what the stamped records say of a class. A map of counts is the list
-- of its entries, and a set is the list of its keys.
pub mod Laws
pub mod Scope
use agentic_dev_harness.Shared.{
  ℕ, suc, not, ◌&&◌, Option, none, some, List, [], ◌∷◌, map, String, ◌==◌, if◌then◌else◌, length,
  lookup, insert, add, add_all, sort_strings,
}
use agentic_dev_harness.Failures.{FailureRecord}

abbrev pub or_none : Option (List String) → List String
or_none none = []
or_none (some set) = set

-- The first loop of `StrataCount`
unfoldable pub strata_sets :
    List FailureRecord → List (String × List String) → List (String × List String)
unfolding lookup insert
strata_sets [] sets = sets
strata_sets (r ∷ recs) sets = strata_sets recs (
    if r.stratum == ""
    then sets
    else insert r.class (add r.stratum (or_none (lookup r.class sets))) sets)

-- The second loop of `StrataCount`
unfoldable pub sizes : List (String × List String) → List (String × ℕ)
sizes [] = []
sizes ((class, set) ∷ sets) = (class, length set) ∷ sizes sets

-- `StrataCount`
unfoldable pub strata_count : List FailureRecord → List (String × ℕ)
unfolding strata_sets sizes
strata_count recs = sizes (strata_sets recs [])

-- The loop of `ScopeFor`, for the labels and the paths
unfoldable pub scope_loop :
    List FailureRecord → String → List String → List String → List String × List String
scope_loop [] class labels paths = (labels, paths)
scope_loop (r ∷ recs) class labels paths =
    scope_loop recs class (if r.class == class then add_all r.labels labels else labels)
      (if r.class == class then add_all r.paths paths else paths)

-- `ScopeFor`
unfoldable pub scope_for : List FailureRecord → String → List String × List String
unfolding scope_loop
scope_for recs class =
    let (labels, paths) = scope_loop recs class [] [] in (sort_strings labels, sort_strings paths)

abbrev pub or_zero : Option ℕ → ℕ
or_zero none = 0
or_zero (some n) = n

-- The loop of `RootCauseCounts`
unfoldable pub cause_loop : List FailureRecord → String → List (String × ℕ) → List (String × ℕ)
unfolding lookup insert
cause_loop [] class counts = counts
cause_loop (r ∷ recs) class counts = cause_loop recs class (
    if (r.class == class) && not (r.root_cause == "")
    then insert r.root_cause (suc (or_zero (lookup r.root_cause counts))) counts
    else counts)

-- `RootCauseCounts`
unfoldable pub root_cause_counts : List FailureRecord → String → List (String × ℕ)
unfolding cause_loop
root_cause_counts recs class = cause_loop recs class []
