-- ===== src/Examples/Contexts.antt =====
-- The theorems about units of context, for a store of one unit.
use mathlib.Core.List.{Memᴰ}
use agentic_dev_harness.Shared.{
  ℕ, ◌≤◌, ◌≡◌, refl, ◌≢◌, ◌⊎◌, ◌↔◌, false, none, List, [], ◌∷◌, String, All, IsSorted, length,
}
use agentic_dev_harness.Adh.Stage.{critic, open_}
use agentic_dev_harness.Adh.Arc.{Arc}
use agentic_dev_harness.Context.Freshness.{ContextUnit}
use agentic_dev_harness.Context.Route.{route}
use agentic_dev_harness.Context.Route.Laws.{IsSelected, unit_before, matches_more, route-selects}
use agentic_dev_harness.Critic.Grounding.{Grounding}
use agentic_dev_harness.Context.Improve.{Miss, RouteProposal, propose_routes}
use agentic_dev_harness.Context.Improve.Laws.{Earned, propose_routes_iff}
use agentic_dev_harness.Verdict.{SplitAssignment, validate_splits}
use agentic_dev_harness.Verdict.Laws.{validate_splits_iff}
use agentic_dev_harness.Examples.Data.{sample_arc, store_unit}

abbrev units : List ContextUnit
units = store_unit ∷ []

abbrev cap : ℕ
cap = 8

route-selects_example :
    All (IsSelected ("store" ∷ []) [] units) (route units ("store" ∷ []) [] cap)
    × IsSorted (unit_before ("store" ∷ []) []) (route units ("store" ∷ []) [] cap)
    × IsSorted (matches_more ("store" ∷ []) []) (route units ("store" ∷ []) [] cap)
    × (cap ≢ 0 → length (route units ("store" ∷ []) [] cap) ≤ cap)
    × ((u : ContextUnit)
        → IsSelected ("store" ∷ []) [] units u
        → Memᴰ u (route units ("store" ∷ []) [] cap)
          ⊎ ((length (route units ("store" ∷ []) [] cap) ≡ cap)
              × All
                  (λ v. unit_before ("store" ∷ []) [] u v ≡ false)
                  (route units ("store" ∷ []) [] cap)))
route-selects_example = route-selects ("store" ∷ []) [] units cap

-- An arc with a label that no unit has.
abbrev unmatched : Arc String
unmatched = record (sample_arc critic open_) { labels = "docs" ∷ []; proof = "" }

abbrev ungrounded : Grounding String String String
ungrounded = record {
  paths = [];
  diff = "";
  acceptance_bar = "";
  proof = [];
  context = [];
  tools = [];
  coverage = [];
  noisy = [];
  denied = [];
  prior_gaps = [];
  withheld = [];
}

-- Two misses of one label, in two months.
abbrev misses : List Miss
misses =
    record { arc = "arc-0001"; labels = "docs" ∷ []; paths = []; stratum = "2026-06" }
    ∷ record { arc = "arc-0002"; labels = "docs" ∷ []; paths = []; stratum = "2026-07" }
    ∷ []

abbrev earned_route : RouteProposal
earned_route = record { key = "docs"; kind = "label"; count = 2; strata = 2 }

propose_routes_iff_example : Memᴰ earned_route (propose_routes misses 2) ↔ (
    Earned (λ m. m.labels) "label" misses 2 earned_route
    ⊎ Earned (λ m. m.paths) "path" misses 2 earned_route)
propose_routes_iff_example = propose_routes_iff misses 2 earned_route

-- The label does earn its route.
route_is_proposed : propose_routes misses 2 ≡ earned_route ∷ []
unfolding propose_routes
route_is_proposed = refl

abbrev assigned : List SplitAssignment
assigned =
    record { id = "t1"; split = "train" }
    ∷ record { id = "t2"; split = "test" }
    ∷ record { id = "t1"; split = "test" }
    ∷ []

validate_splits_iff_example : (validate_splits assigned ≡ none) ↔ (
    (a b : SplitAssignment) → Memᴰ a assigned → Memᴰ b assigned → a.id ≡ b.id → a.split ≡ b.split)
validate_splits_iff_example = validate_splits_iff assigned
