-- ===== src/Context/Improve.antt =====
-- internal/contextstore/miss.go and routeeval.go: routes that recorded misses have earned, and the
-- score of routing on given cases. A ratio is kept as its numerator and denominator.
pub mod Laws
use agentic_dev_harness.Shared.{
  ℕ, suc, ◌+◌, Bool, not, ◌&&◌, Option, none, some, List, [], ◌∷◌, ◌++◌, String, ◌==◌,
  if◌then◌else◌, map, leb, eqb, filter, length, all, has, add, add_all, sort_by, str_lt,
  sort_strings, lookup, insert,
}
use agentic_dev_harness.Shared.Order.{by_number}
use agentic_dev_harness.Context.Freshness.{ContextUnit}
use agentic_dev_harness.Context.Route.{route}

pub record Miss : Type 0 where
  pub arc : String
  pub labels : List String
  pub paths : List String
  pub stratum : String

pub record RouteProposal : Type 0 where
  pub key : String
  pub kind : String
  pub count : ℕ
  pub strata : ℕ

-- `strata` holds the keys of the map.
pub record KeyStat : Type 0 where
  pub count : ℕ
  pub strata : List String

abbrev pub or_empty_stat : Option KeyStat → KeyStat
or_empty_stat none = record { count = 0; strata = [] }
or_empty_stat (some stat) = stat

-- One miss more for a key.
abbrev pub bump : String → KeyStat → KeyStat
bump stratum stat = record {
  count = suc stat.count;
  strata = if not (stratum == "") then add stratum stat.strata else stat.strata;
}

-- `tally`
unfoldable pub tally : String → String → List (String × KeyStat) → List (String × KeyStat)
unfolding lookup insert
tally key stratum stats = insert key (bump stratum (or_empty_stat (lookup key stats))) stats

-- One inner loop of `ProposeRoutes`.
unfoldable pub tally_all : List String → String → List (String × KeyStat) → List (String × KeyStat)
unfolding tally
tally_all [] stratum stats = stats
tally_all (key ∷ keys) stratum stats = tally_all keys stratum (tally key stratum stats)

-- The outer loop for one of the two maps; `keys` is the field that it reads.
unfoldable pub tally_misses :
    (Miss → List String) → List Miss → List (String × KeyStat) → List (String × KeyStat)
unfolding tally_all
tally_misses keys [] stats = stats
tally_misses keys (m ∷ misses) stats = tally_misses keys misses (tally_all (keys m) m.stratum stats)

-- `minStrata`
abbrev pub min_strata : ℕ
min_strata = 2

-- `appendOverThreshold`, what it appends
unfoldable pub over_threshold : List (String × KeyStat) → String → ℕ → List RouteProposal
over_threshold [] kind threshold = []
over_threshold ((key, stat) ∷ stats) kind threshold =
    let rest = over_threshold stats kind threshold in
    if leb threshold stat.count && leb min_strata (length stat.strata)
    then record { key = key; kind = kind; count = stat.count; strata = length stat.strata } ∷ rest
    else rest

-- The order of `ProposeRoutes`.
unfoldable pub proposal_before : RouteProposal → RouteProposal → Bool
proposal_before =
    by_number (λ p. p.count)
      (λ p q. if not (p.kind == q.kind) then str_lt p.kind q.kind else str_lt p.key q.key)

-- `ProposeRoutes`
unfoldable pub propose_routes : List Miss → ℕ → List RouteProposal
unfolding tally_misses over_threshold proposal_before
propose_routes misses threshold = sort_by proposal_before (
    over_threshold (tally_misses (λ m. m.labels) misses []) "label" threshold
    ++ over_threshold (tally_misses (λ m. m.paths) misses []) "path" threshold)

pub record RoutingCase : Type 0 where
  pub name : String
  pub labels : List String
  pub paths : List String
  pub want : List String

-- The counts behind the report: a ratio of denominator 0 is 1.0.
pub record RoutingReport : Type 0 where
  pub cases : ℕ
  pub passed : ℕ
  pub true_positives : ℕ
  pub false_positives : ℕ
  pub false_negatives : ℕ
  pub failures : List String

-- `routedIDs`
unfoldable pub routed_ids : List ContextUnit → RoutingCase → ℕ → List String
unfolding route
routed_ids units c max_units = add_all (map (λ u. u.id) (route units c.labels c.paths max_units)) []

-- The body of the loop of `EvaluateRouting`.
unfoldable pub evaluate_case : List ContextUnit → RoutingCase → ℕ → RoutingReport → RoutingReport
unfolding routed_ids
evaluate_case units c max_units r =
    let routed = routed_ids units c max_units in
    let want = add_all c.want [] in
    let hits = length (filter (λ id. has id want) routed) in
    let wrong = length (filter (λ id. not (has id want)) routed) in
    let missed = length (filter (λ id. not (has id routed)) want) in
    let passes =
      eqb (length routed) (length want)
      && all (λ id. has id want) routed
      && all (λ id. has id routed) want in
    record {
      cases = r.cases;
      passed = if passes then suc r.passed else r.passed;
      true_positives = r.true_positives + hits;
      false_positives = r.false_positives + wrong;
      false_negatives = r.false_negatives + missed;
      failures = if passes then r.failures else r.failures ++ (c.name ∷ []);
    }

unfoldable pub evaluate_cases :
    List ContextUnit → List RoutingCase → ℕ → RoutingReport → RoutingReport
unfolding evaluate_case
evaluate_cases units [] max_units r = r
evaluate_cases units (c ∷ cases) max_units r =
    evaluate_cases units cases max_units (evaluate_case units c max_units r)

-- `EvaluateRouting`
unfoldable pub evaluate_routing : List ContextUnit → List RoutingCase → ℕ → RoutingReport
unfolding evaluate_cases
evaluate_routing units cases max_units =
    let r = evaluate_cases units cases max_units (record {
      cases = length cases;
      passed = 0;
      true_positives = 0;
      false_positives = 0;
      false_negatives = 0;
      failures = [];
    }) in
    record {
      cases = r.cases;
      passed = r.passed;
      true_positives = r.true_positives;
      false_positives = r.false_positives;
      false_negatives = r.false_negatives;
      failures = sort_strings r.failures;
    }
