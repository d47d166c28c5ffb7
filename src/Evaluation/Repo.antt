-- ===== src/Evaluation/Repo.antt =====
-- internal/evaluation/evaluation.go: the adjudicator of a repository, which runs its declared tools,
-- the built-in oracle and the mock of internal/device. The log of the runs of tools is passed along; a
-- write to it that fails is passed over. Processes, proof packets and the boards are parameters.
pub mod Cases
pub mod Laws
use agentic_dev_harness.Shared.{
  ℕ, Bool, true, false, not, ◌&&◌, Option, none, some, List, [], ◌∷◌, String, ◌==◌, if◌then◌else◌,
  eqb, any,
}
use agentic_dev_harness.Adh.Error.{Error, Result, ok, err, ◌>>=◌, wrap, context}
use agentic_dev_harness.Adh.Finding.{
  Finding, Kind, oracle, invariant, device, nfr, contract, Unrunnable, no_ref, unknown_ref,
  tool_failed,
}
use agentic_dev_harness.Float.{Float}
use agentic_dev_harness.Nfr.{Spec, by_id, meets, regressed}
use agentic_dev_harness.Critic.Disposition.{Adjudicated}
use agentic_dev_harness.Evaluation.Adjudicate.{Adjudicator}
use agentic_dev_harness.Oracle.Board.{Board, react, diverges, invariants_hold}
use agentic_dev_harness.Oracle.Native.{native}
use agentic_dev_harness.Tools.Registry.{Tool, Command, Stored, find_by_id, invocation, load_repo}
use agentic_dev_harness.Tools.Runs.{Log, Step, not_run, append_outcome}

-- `CheckRunner`, and how long a run took
pub record CheckRunner (F : Type 0) : Type 0 where
  pub run_check : Command → Bool × Bool
  pub measure : Command → Option F
  pub took : Command → ℕ

-- What a process gave: its exit code, whether it started, and what it printed.
pub record Ended : Type 0 where
  pub code : ℕ
  pub started : Bool
  pub out : String

-- `RepoAdjudicator`, with what is outside of the program: verifying a proof packet, the boards, the
-- time, and which steps of writing the log fail.
pub record Repo (F : Type 0) : Type 1 where
  pub checks : List (Tool F)
  pub specs : List (Spec F)
  pub runner : Option (CheckRunner F)
  pub logging : Bool
  pub Packet : Type 0
  pub load_packet : String → Option Packet
  pub verifies : Packet → Bool
  pub boards : List Board
  pub stratum : String
  pub log_fault : Step → Option Error

-- `string(Unrunnable)`
unfoldable pub unrunnable_text : Unrunnable → String
unrunnable_text Unrunnable.unset = ""
unrunnable_text no_ref = "no-ref"
unrunnable_text unknown_ref = "unknown-ref"
unrunnable_text tool_failed = "tool-failed"

-- `Mock.Validate` of internal/device, as the report's `OK`
unfoldable pub mock_validate : Bool → Result Bool
mock_validate healthy = ok healthy

module _ (float : Float) where
  open float use {F}

  -- `parseMeasurement`, over `strings.Fields` and `strconv.ParseFloat`
  unfoldable pub parse_measurement :
      (String → List String) → (String → Option F) → String → Option F
  parse_measurement fields parse out = last (fields out)
    where
      last : List String → Option F
      last [] = none
      last (token ∷ []) = parse token
      last (token ∷ next ∷ tokens) = last (next ∷ tokens)

  -- `ShellRunner`
  unfoldable pub shell_runner :
      (Command → Ended)
      → (Command → ℕ)
      → (String → List String)
      → (String → Option F)
      → CheckRunner F
  shell_runner exec took fields parse = record {
    run_check = λ c. (eqb (exec c).code 0, (exec c).started);
    measure = λ c.
        if not_run (exec c).code (exec c).started
        then none
        else parse_measurement fields parse (exec c).out;
    took = took;
  }

module _ {F : Type 0} where
  abbrev pub did_not_run : Finding → Unrunnable → Adjudicated F
  did_not_run f why = record {
    finding = f;
    ran = false;
    failed = false;
    unrunnable = why;
    measured = none;
    regressed = false;
  }

  abbrev pub did_run : Finding → Bool → Adjudicated F
  did_run f failed = record (did_not_run f Unrunnable.unset) { ran = true; failed = failed }

  -- The result of a declared tool that passed or not, if it ran.
  abbrev pub of_run : Finding → Bool × Bool → Adjudicated F
  of_run f (passed, true) = did_run f (not passed)
  of_run f (passed, false) = did_not_run f tool_failed

module _ (float : Float) (repo : Repo float.F) where
  open float use {F}

  -- `logRun`
  unfoldable pub log_run : String → Bool → Bool → ℕ → Unrunnable → Log → Log
  log_run id ran failed took why log =
      let (fault, written) =
        append_outcome repo.log_fault id repo.stratum ran failed took (unrunnable_text why) log in
      if repo.logging then written else log

  abbrev pub run_tool : Finding → CheckRunner F → Tool F → Log → Adjudicated F × Log
  run_tool f runner tool log =
      let res : Adjudicated F = of_run f (runner.run_check (invocation tool)) in
      (res, log_run tool.id res.ran res.failed (runner.took (invocation tool)) res.unrunnable log)

  abbrev pub run_found :
      Finding → Option (CheckRunner F) → Option (Tool F) → Log → Option (Adjudicated F × Log)
  run_found f (some runner) (some tool) log = some (run_tool f runner tool log)
  run_found f (some runner) none log = none
  run_found f none tool log = none

  -- `runDeclaredTool`, for the finding whose `Ref` it is given
  unfoldable pub run_declared_tool : Finding → Log → Option (Adjudicated F × Log)
  run_declared_tool f log =
      if f.ref == "" then none else run_found f repo.runner (find_by_id f.ref repo.checks) log

  abbrev pub diverged : Option Board → Bool
  diverged none = false
  diverged (some board) = true

  -- `builtinOracle`
  unfoldable pub builtin_oracle : Bool
  builtin_oracle = diverged (diverges react native repo.boards)

  -- `builtinInvariant`
  unfoldable pub builtin_invariant : Bool
  builtin_invariant = any (λ board. not (invariants_hold board (native board))) repo.boards

  abbrev reported : Finding → Result Bool → Result (Adjudicated F)
  reported f (ok healthy) = ok (did_run f (not healthy))
  reported f (err e) = err (context "device validate" e)

  -- `builtinDevice`
  unfoldable pub builtin_device : Finding → Result (Adjudicated F)
  unfolding mock_validate
  builtin_device f = reported f (mock_validate true)

  abbrev pub of_packet : Finding → Option repo.Packet → Adjudicated F
  of_packet f none = did_run f true
  of_packet f (some packet) = did_run f (not (repo.verifies packet))

  -- `adjudicateContract`
  unfoldable pub adjudicate_contract : Finding → Adjudicated F
  adjudicate_contract f =
      if f.ref == "" then did_not_run f no_ref else of_packet f (repo.load_packet f.ref)

  abbrev pub of_measure : Finding → Spec F → Option F → Adjudicated F
  of_measure f spec none = did_not_run f tool_failed
  of_measure f spec (some value) = record (did_run f (not (meets float spec value))) {
    measured = some value;
    regressed = regressed float spec value;
  }

  abbrev pub by_meter : Finding → CheckRunner F → Spec F → Option (Tool F) → Adjudicated F
  by_meter f runner spec none = did_not_run f unknown_ref
  by_meter f runner spec (some tool) = of_measure f spec (runner.measure (invocation tool))

  -- `adjudicateSpec`
  unfoldable pub adjudicate_spec : Finding → CheckRunner F → Spec F → Adjudicated F
  adjudicate_spec f runner spec = by_meter f runner spec (find_by_id spec.meter repo.checks)

  abbrev pub or_unknown : Finding → Option (Adjudicated F × Log) → Log → Adjudicated F × Log
  or_unknown f (some done) log = done
  or_unknown f none log = (did_not_run f unknown_ref, log)

  abbrev pub by_spec : Finding → CheckRunner F → Option (Spec F) → Log → Adjudicated F × Log
  by_spec f runner (some spec) log = (adjudicate_spec f runner spec, log)
  by_spec f runner none log = or_unknown f (run_declared_tool f log) log

  abbrev pub with_runner : Finding → Option (CheckRunner F) → Log → Adjudicated F × Log
  with_runner f none log = (did_not_run f no_ref, log)
  with_runner f (some runner) log = by_spec f runner (by_id repo.specs f.ref) log

  -- `adjudicateNFR`
  unfoldable pub adjudicate_nfr : Finding → Log → Adjudicated F × Log
  adjudicate_nfr f log =
      if f.ref == "" then (did_not_run f no_ref, log) else with_runner f repo.runner log

  -- The declared tool, or the built-in check of the kind.
  abbrev pub or_builtin :
      Option (Adjudicated F × Log) → Result (Adjudicated F) → Log → Result (Adjudicated F) × Log
  or_builtin (some (res, log')) builtin log = (ok res, log')
  or_builtin none builtin log = (builtin, log)

  abbrev sure : Adjudicated F × Log → Result (Adjudicated F) × Log
  sure (res, log) = (ok res, log)

  abbrev pub repo_at : Kind → Finding → Log → Result (Adjudicated F) × Log
  repo_at oracle f log = or_builtin (run_declared_tool f log) (ok (did_run f builtin_oracle)) log
  repo_at invariant f log =
      or_builtin (run_declared_tool f log) (ok (did_run f builtin_invariant)) log
  repo_at device f log = or_builtin (run_declared_tool f log) (builtin_device f) log
  repo_at contract f log = (ok (adjudicate_contract f), log)
  repo_at nfr f log = sure (adjudicate_nfr f log)
  repo_at (Kind.other s) f log = (ok (did_not_run f unknown_ref), log)

  -- `AdjudicateWhy`, and the log after it
  unfoldable pub adjudicate_why : Finding → Log → Result (Adjudicated F) × Log
  adjudicate_why f log = repo_at f.kind f log

  -- The adjudicator, as the interface that `Adjudicate` reads
  unfoldable pub repo_adjudicator : Log → Adjudicator F
  repo_adjudicator log = record {
    why = some (λ f. (adjudicate_why f log).0);
    adjudicate = λ f. (adjudicate_why f log).0 >>= λ r. ok (r.ran, r.failed);
  }

abbrev wrapped {ℓ} : {A : Type ℓ} → String → Result A → Result A
wrapped op (ok a) = ok a
wrapped op (err e) = err (wrap op e)

-- `loadChecks`
unfoldable pub load_checks : {F : Type 0} → Stored F → Result (List (Tool F))
load_checks file = wrapped "evaluation.loadChecks" (load_repo file)

abbrev unrefused : Option Error → Result (Unit {0})
unrefused none = ok tt
unrefused (some e) = err e

-- `RepoAdjudicatorFor`: what the comparison of the registry with HEAD refuses, and what reading the
-- registry and the specs gives; the tools and specs of the adjudicator
unfoldable pub repo_adjudicator_for :
    {F : Type 0}
    → Option Error
    → Stored F
    → Result (List (Spec F))
    → Result (List (Tool F) × List (Spec F))
repo_adjudicator_for refusal file specs =
    wrapped "evaluation.RepoAdjudicatorFor" (unrefused refusal) >>= λ u.
    load_checks file >>= λ checks.
    wrapped "evaluation.RepoAdjudicatorFor" specs >>= λ ss. ok (checks, ss)
