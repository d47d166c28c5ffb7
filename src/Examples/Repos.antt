-- ===== src/Examples/Repos.antt =====
-- The theorems about the adjudicator of a repository, for a declared linter that fails, and for one
-- that does not start.
use agentic_dev_harness.Shared.{◌≡◌, refl, ◌≢◌, ◌⊎◌, Bool, true, false, none, some, [], ◌∷◌, String}
use agentic_dev_harness.Adh.Finding.{Finding, oracle, contract, fixable, trustworthy}
use agentic_dev_harness.Oracle.Board.{cols}
use agentic_dev_harness.Nfr.{Spec, meets}
use agentic_dev_harness.Tools.Registry.{Tool, invocation, find_by_id}
use agentic_dev_harness.Tools.Runs.{absent}
use agentic_dev_harness.Evaluation.Repo.{
  CheckRunner, Repo, of_run, adjudicate_why, run_declared_tool,
}
use agentic_dev_harness.Evaluation.Repo.Cases.{IsDeclared, IsMetered}
use agentic_dev_harness.Evaluation.Repo.Laws.{IsBroken, confirmed_by_artifact, refused_by_tool}
use agentic_dev_harness.Examples.Data.{naturals}

abbrev linter : Tool naturals.F
linter = record {
  id = "lint";
  run = "lint --strict";
  command = "";
  args = [];
  result = "";
  verifies = "style";
  repair_hint = "";
  kpis = [];
  adjudicates = oracle ∷ [];
  if_absent = "";
}

-- A repository whose tools end as given.
abbrev repo_of : Bool × Bool → Repo naturals.F
repo_of result = record {
  checks = linter ∷ [];
  specs = [];
  runner = some (record { run_check = λ c. result; measure = λ c. none; took = λ c. 5 });
  logging = true;
  Packet = String;
  load_packet = λ name. none;
  verifies = λ packet. true;
  boards = ((1 ∷ 1 ∷ []) ∷ (2 ∷ 2 ∷ []) ∷ []) ∷ [];
  stratum = "2026-01";
  log_fault = λ step. none;
}

abbrev style : Finding
style = record { summary = "style is broken"; kind = oracle; ref = "lint"; class = fixable }

confirmed_by_artifact_example :
    ((runner : CheckRunner naturals.F) × (tool : Tool naturals.F) × IsDeclared naturals
        (repo_of (false, true))
        style
        runner
        tool
      × (runner.run_check (invocation tool) ≡ (false, true)))
    ⊎ ((spec : Spec naturals.F) × (runner : CheckRunner naturals.F) × (tool : Tool naturals.F)
        × (value : naturals.F) × IsMetered naturals (repo_of (false, true)) style spec runner tool
        × (runner.measure (invocation tool) ≡ some value)
        × (meets naturals spec value ≡ false))
    ⊎ ((oracle ≡ contract)
        × (◌≢◌ {A = String} "lint" "")
        × IsBroken naturals (repo_of (false, true)) none)
unfolding adjudicate_why run_declared_tool find_by_id cols
confirmed_by_artifact_example =
    confirmed_by_artifact naturals (repo_of (false, true)) style absent (of_run style (false, true))
      ((refl, (refl, tt)), tt) refl refl

refused_by_tool_example :
    ((runner : CheckRunner naturals.F) × (tool : Tool naturals.F) × IsDeclared naturals
        (repo_of (false, false))
        style
        runner
        tool
      × ((runner.run_check (invocation tool)).1 ≡ false))
    ⊎ ((spec : Spec naturals.F) × (runner : CheckRunner naturals.F) × (tool : Tool naturals.F)
        × IsMetered naturals (repo_of (false, false)) style spec runner tool
        × (runner.measure (invocation tool) ≡ none))
unfolding adjudicate_why run_declared_tool find_by_id trustworthy cols
refused_by_tool_example =
    refused_by_tool naturals (repo_of (false, false)) style absent (of_run style (false, false))
      ((refl, (refl, tt)), tt) refl refl
