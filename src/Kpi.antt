-- ===== src/Kpi.antt =====
-- internal/kpi: performance indicators measured on the logs of failures and of runs, and the proposals
-- that a breach earns. A unit comes with its indicators, which the record of its routing leaves out.
pub mod Laws
use agentic_dev_harness.Shared.{
  ℕ, ◌+◌, Bool, true, false, not, ◌&&◌, ◌||◌, Option, none, some, List, [], ◌∷◌, map, String, ◌==◌,
  if◌then◌else◌, filter, find?, any, has, add_all, length, leb, eqb, sort_by, str_lt, concat_map,
  is_empty,
}
use agentic_dev_harness.Float.{Float}
use agentic_dev_harness.Adh.Kpi.{Kpi, breached}
use agentic_dev_harness.Context.Freshness.{ContextUnit}
use agentic_dev_harness.Failures.{FailureRecord, root_grounded_miss}
use agentic_dev_harness.Tools.Registry.{Tool}
use agentic_dev_harness.Tools.Runs.{RunRecord}

-- `SubjectUnit` and `SubjectTool`
pub data SubjectKind : Type 0 where
  unit tool : SubjectKind

-- `Observation`
pub record Observation (F : Type 0) : Type 0 where
  pub metric : String
  pub value : F
  pub strata : ℕ

-- `Subject`
pub record Subject (F : Type 0) : Type 0 where
  pub id : String
  pub kind : SubjectKind
  pub kpis : List (Kpi F)
  pub observations : List (Observation F)

-- `Proposal`
pub record KpiProposal (F : Type 0) : Type 0 where
  pub subject : String
  pub kind : SubjectKind
  pub metric : String
  pub observed : F
  pub threshold : F
  pub strata : ℕ

-- `MinStrata`
abbrev pub min_strata : ℕ
min_strata = 2

-- `overlaps`, on the set of the first list
abbrev overlaps : List String → List String → Bool
overlaps set keys = any (λ key. has key set) keys

-- The distinct strata of some records; a record without one counts for nothing.
abbrev strata_of : List String → ℕ
strata_of strata = length (add_all (filter (λ s. not (s == "")) strata) [])

-- What `groundedMissesInScope` counts
abbrev pub in_scope : ContextUnit → FailureRecord → Bool
in_scope u r =
    r.root_cause == root_grounded_miss && (overlaps u.labels r.labels || overlaps u.paths r.paths)

-- `groundedMissesInScope`
unfoldable pub grounded_misses_in_scope : ContextUnit → List FailureRecord → ℕ × ℕ
grounded_misses_in_scope u records =
    let missed = filter (in_scope u) records in
    (length missed, strata_of (map (λ r. r.stratum) missed))

-- `toolFailures`
unfoldable pub tool_failures : String → List RunRecord → ℕ × ℕ
tool_failures id records =
    let runs = filter (λ r. r.tool == id && r.failed) records in
    (length runs, strata_of (map (λ r. r.stratum) runs))

abbrev sum : List ℕ → ℕ
sum [] = 0
sum (n ∷ ns) = n + sum ns

module _ (float : Float) where
  open float use {F, zero, of_nat, div}

  -- `toolDuration`
  unfoldable pub tool_duration : String → List RunRecord → F × ℕ
  tool_duration id records =
      let runs = filter (λ r. r.tool == id && r.ran) records in
      if is_empty runs then (zero, 0) else (
        div (of_nat (sum (map (λ r. r.duration_ms) runs))) (of_nat (length runs)),
        strata_of (map (λ r. r.stratum) runs),
      )

  abbrev unit_subject : List FailureRecord → ContextUnit × List (Kpi F) → Subject F
  unit_subject records u =
      let (count, strata) = grounded_misses_in_scope u.0 records in
      record {
        id = u.0.id;
        kind = unit;
        kpis = u.1;
        observations =
            record { metric = "grounded_miss"; value = of_nat count; strata = strata } ∷ [];
      }

  -- `ObserveUnits`
  unfoldable pub observe_units :
      List (ContextUnit × List (Kpi F)) → List FailureRecord → List (Subject F)
  observe_units units records = map (unit_subject records) (filter (λ u. not (is_empty u.1)) units)

  abbrev tool_subject : List RunRecord → Tool F → Subject F
  tool_subject records t =
      let (failed, fail_strata) = tool_failures t.id records in
      let (mean, run_strata) = tool_duration t.id records in
      record {
        id = t.id;
        kind = tool;
        kpis = t.kpis;
        observations =
            record { metric = "run_failure"; value = of_nat failed; strata = fail_strata }
            ∷ record { metric = "run_duration_ms"; value = mean; strata = run_strata }
            ∷ [];
      }

  -- `ObserveTools`
  unfoldable pub observe_tools : List (Tool F) → List RunRecord → List (Subject F)
  observe_tools tools records =
      map (tool_subject records) (filter (λ t. not (is_empty t.kpis)) tools)

  -- `findObservation`
  unfoldable pub find_observation : String → List (Observation F) → Option (Observation F)
  find_observation metric observations = find? (λ o. o.metric == metric) observations

  abbrev pub proposed : Subject F → Kpi F → Observation F → KpiProposal F
  proposed s kpi o = record {
    subject = s.id;
    kind = s.kind;
    metric = kpi.metric;
    observed = o.value;
    threshold = kpi.threshold;
    strata = o.strata;
  }

  -- The body of the inner loop of `Propose`
  unfoldable pub earned_by : ℕ → Subject F → Kpi F → Option (Observation F) → List (KpiProposal F)
  earned_by least s kpi none = []
  earned_by least s kpi (some o) =
      if breached float kpi o.value && leb least o.strata then proposed s kpi o ∷ [] else []

  abbrev pub by_subject : KpiProposal F → KpiProposal F → Bool
  by_subject a b =
      if not (a.subject == b.subject) then str_lt a.subject b.subject else str_lt a.metric b.metric

  -- `Propose`. Proposals of one subject and metric keep their order, which Go leaves open.
  unfoldable pub propose : ℕ → List (Subject F) → List (KpiProposal F)
  propose least subjects = sort_by by_subject (
      concat_map
        (λ s.
          concat_map (λ k. earned_by least s k (find_observation k.metric s.observations)) s.kpis)
        subjects)
