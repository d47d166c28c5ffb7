-- ===== src/Examples/Stamps.antt =====
-- The theorem about the scope of a class, for two records of it and one of another class.
use agentic_dev_harness.Shared.{◌≡◌, refl, List, [], ◌∷◌, String, str_lt, IsSorted}
use agentic_dev_harness.Critic.Coverage.{occurrences}
use agentic_dev_harness.Failures.{FailureRecord, root_ungrounded, root_grounded_miss}
use agentic_dev_harness.Failures.Records.{scope_for, strata_count, root_cause_counts}
use agentic_dev_harness.Failures.Records.Scope.{once, named_by, scope_for-gathers}

abbrev stamp : String → String → List String → String → FailureRecord
stamp class stratum labels cause = record {
  class = class;
  stratum = stratum;
  labels = labels;
  paths = "cmd/run" ∷ [];
  root_cause = cause;
}

abbrev stamped : List FailureRecord
stamped =
    stamp "oracle" "2026-07" ("docs" ∷ []) root_ungrounded
    ∷ stamp "spec" "2026-07" ("perf" ∷ []) root_grounded_miss
    ∷ stamp "oracle" "2026-08" ("api" ∷ "docs" ∷ []) root_ungrounded
    ∷ []

scope_of_oracle : scope_for stamped "oracle" ≡ ("api" ∷ "docs" ∷ [], "cmd/run" ∷ [])
unfolding scope_for
scope_of_oracle = refl

strata_of_stamped : strata_count stamped ≡ (("oracle", 2) ∷ ("spec", 1) ∷ [])
unfolding strata_count
strata_of_stamped = refl

causes_of_oracle : root_cause_counts stamped "oracle" ≡ ((root_ungrounded, 2) ∷ [])
unfolding root_cause_counts
causes_of_oracle = refl

scope_for-gathers_example :
    IsSorted str_lt (scope_for stamped "oracle").0
    × IsSorted str_lt (scope_for stamped "oracle").1
    × ((label : String)
        → occurrences label (scope_for stamped "oracle").0
          ≡ once (named_by (λ r. r.labels) "oracle" stamped label))
    × ((path : String)
        → occurrences path (scope_for stamped "oracle").1
          ≡ once (named_by (λ r. r.paths) "oracle" stamped path))
scope_for-gathers_example = scope_for-gathers stamped "oracle"
