-- ===== src/Examples/Toolings.antt =====
-- The theorems about the registry of tools and its indicators, for one tool that failed in two months.
use mathlib.Core.List.{Memᴰ}
use agentic_dev_harness.Shared.{◌≡◌, refl, ◌↔◌, true, none, List, [], ◌∷◌, String, All, map}
use agentic_dev_harness.Adh.Finding.{oracle}
use agentic_dev_harness.Adh.Kpi.{Kpi, above, breached}
use agentic_dev_harness.Adh.Registry.{Distinct}
use agentic_dev_harness.Tools.Registry.{Tool, validate}
use agentic_dev_harness.Tools.Registry.Laws.{IsWhole, validate-tools_iff}
use agentic_dev_harness.Tools.Runs.{RunRecord}
use agentic_dev_harness.Kpi.{
  Subject, KpiProposal, min_strata, tool, observe_tools, tool_failures, find_observation, earned_by,
  propose,
}
use agentic_dev_harness.Kpi.Laws.{IsEarned, propose_iff}
use agentic_dev_harness.Examples.Data.{naturals}

abbrev failures_kpi : Kpi naturals.F
failures_kpi = record { metric = "run_failure"; threshold = 1; direction = above }

abbrev linter : Tool naturals.F
linter = record {
  id = "lint";
  run = "";
  command = "lint";
  args = "--json" ∷ [];
  result = "json";
  verifies = "style";
  repair_hint = "";
  kpis = failures_kpi ∷ [];
  adjudicates = oracle ∷ [];
  if_absent = "";
}

validate-tools_iff_example :
    (validate (linter ∷ []) ≡ none)
    ↔ (All IsWhole (linter ∷ []) × Distinct (map (λ (t : Tool naturals.F). t.id) (linter ∷ [])))
validate-tools_iff_example = validate-tools_iff (linter ∷ [])

abbrev failed_in : String → RunRecord
failed_in stratum = record {
  tool = "lint";
  stratum = stratum;
  ran = true;
  failed = true;
  duration_ms = 5;
  unrunnable = "";
}

abbrev measured : List (Subject naturals.F)
measured = observe_tools naturals (linter ∷ []) (failed_in "2026-01" ∷ failed_in "2026-02" ∷ [])

abbrev proposal : KpiProposal naturals.F
proposal = record {
  subject = "lint";
  kind = tool;
  metric = "run_failure";
  observed = 2;
  threshold = 1;
  strata = 2;
}

propose_iff_example : Memᴰ proposal (propose naturals min_strata measured) ↔ (
    (s : Subject naturals.F) × Memᴰ s measured
    × ((kpi : Kpi naturals.F) × Memᴰ kpi s.kpis × IsEarned naturals min_strata s kpi proposal))
propose_iff_example = propose_iff naturals min_strata measured proposal

-- The tool failed twice, in two months, and the indicator earned the proposal.
lint_failures : propose naturals min_strata measured ≡ proposal ∷ []
unfolding propose observe_tools tool_failures find_observation earned_by breached
lint_failures = refl
