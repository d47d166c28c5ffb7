-- ===== src/Commands/Run.antt =====
-- cmd/run/run.go: the drive of an arc by the mock model, until it waits at a gate or has ended. The
-- loop runs on fuel; `none` is a loop that used it up. Rendering, the adjudicator, the guards and
-- the stratum of the day are parameters.
pub mod Termination
pub mod Laws
pub mod Passes
use agentic_dev_harness.Shared.{
  ℕ, zero, suc, ◌+◌, ◌*◌, Bool, true, false, Option, none, some, List, [], ◌∷◌, ◌++◌, String,
  if◌then◌else◌, concat, not,
}
use agentic_dev_harness.Adh.Error.{Error, Result, ok, err, ◌>>=◌, context}
use agentic_dev_harness.Adh.Stage.{
  Stage, evaluation, ops, stage_text, Status, open_, blocked, failed,
}
use agentic_dev_harness.Adh.Arc.{Arc}
use agentic_dev_harness.Authority.{Level, JudgmentRoles, ModelClass}
use agentic_dev_harness.Model.{mock}
use agentic_dev_harness.Nfr.{Spec}
use agentic_dev_harness.Stages.{Prompter, auto_advances, execute}
use agentic_dev_harness.Critic.Disposition.{Verdict}
use agentic_dev_harness.Evaluation.Adjudicate.{Adjudicator, adjudicate}
use agentic_dev_harness.Evaluation.Apply.{apply}
use agentic_dev_harness.Failures.{Logs}
use agentic_dev_harness.Store.{Store, get, save}
use agentic_dev_harness.Commands.World.{
  World, Machine, Outcome, done, error, exit, missing_operand, dry_run_unsupported, Command, saving,
  finished,
}

-- What the loop reads: the configuration, and what is outside of it.
pub record RunConfig (U G F : Type 0) : Type 0 where
  pub level : Level
  pub judgment : JudgmentRoles
  pub record_lessons : Bool
  pub max_reworks : ℕ
  pub stratum : String
  pub prompter : Prompter U G
  pub adjudicator : Result (Adjudicator F)
  pub specs : Result (List (Spec F))

-- One pass of the loop: it ends the command, or goes on with the arc.
pub data Pass (U : Type 0) : Type 0 where
  stop : Outcome → World U → Pass U
  next : Arc U → World U → Pass U

abbrev pub is_open : Status → Bool
is_open open_ = true
is_open _ = false

-- `fmt.Errorf("run: %w", err)`
abbrev pub run_error {ℓ} : {A : Type ℓ} → Result A → Result A
run_error (ok a) = ok a
run_error (err e) = err (context "run" e)

abbrev pub stopped : {U : Type 0} → Outcome × World U → Pass U
stopped (o, w) = stop o w

abbrev report_status : Status → Outcome
report_status failed = exit 1
report_status _ = done

-- `reportDone`
unfoldable pub report_done : {U : Type 0} → Arc U → Outcome
report_done arc = report_status arc.status

abbrev pub ops_message : String
ops_message = "ops is the ship gate; approve then `close`"

abbrev pub go_on :
    {U : Type 0}
    → (Arc U → World U → Option (Outcome × World U))
    → Pass U
    → Option (Outcome × World U)
go_on loop (stop o w) = some (o, w)
go_on loop (next arc w) = loop arc w

abbrev pub gate_message : Stage → String
gate_message s = concat (stage_text s ∷ " requires a human gate" ∷ [])

module _ {U G F : Type 0} (machine : Machine) (cfg : RunConfig U G F) where
  open cfg use {level, judgment, record_lessons, max_reworks, stratum, prompter, adjudicator, specs}

  abbrev pub blocked_with : String → Arc U → Arc U
  blocked_with message arc = record arc {
    status = blocked;
    history = arc.history ++ concat ("blocked: " ∷ message ∷ []) ∷ [];
  }

  -- `block`
  abbrev pub block : String → Arc U → Command U
  block message arc = saving machine "run" (blocked_with message arc) (finished machine)

  abbrev pub named : Result (Arc U) × World U → Result (Arc U) × World U
  named (r, w) = (run_error r, w)

  abbrev pub with_verdict : Result Verdict → Arc U → World U → Result (Arc U) × World U
  with_verdict (err e) arc w = (err e, w)
  with_verdict (ok verdict) arc w =
      let (r, logs) = apply machine.disk arc verdict record_lessons max_reworks stratum w.logs in
      (r, record w { logs = logs })

  -- `adjudicate`
  unfoldable pub adjudicate_stage : Arc U → World U → Result (Arc U) × World U
  unfolding adjudicate apply
  adjudicate_stage arc w =
      let verdict = adjudicator >>= λ adj. specs >>= λ s. adjudicate adj s arc.findings in
      named (with_verdict verdict arc w)

  abbrev pub advance_at : Stage → Arc U → World U → Result (Arc U) × World U
  advance_at evaluation arc w = adjudicate_stage arc w
  advance_at _ arc w = named (execute (mock "" ModelClass.unset) prompter arc judgment, w)

  -- `advanceStage`
  unfoldable pub advance_stage : Arc U → World U → Result (Arc U) × World U
  unfolding adjudicate_stage execute mock
  advance_stage arc w = advance_at arc.stage arc w

  -- What follows the save of the arc that a stage returned.
  unfoldable pub settle : Stage → Arc U → World U → Pass U
  unfolding report_done auto_advances stage_text
  settle from arc w =
      if is_open arc.status
      then (if auto_advances from level
          then next arc w
          else stopped (block (gate_message arc.stage) arc w))
      else stop (report_done arc) w

  abbrev pub after_save : Stage → Arc U → World U → Result (Store U) → Pass U
  after_save from arc w (ok store) = settle from arc (record w { store = store })
  after_save from arc w (err e) = stop (error (context "run" e)) w

  abbrev pub after_stage : Stage → Result (Arc U) × World U → Pass U
  after_stage from (err e, w) = stop (error e) w
  after_stage from (ok arc, w) = after_save from arc w (save machine.files arc w.store)

  abbrev pub pass_at : Stage → Arc U → World U → Pass U
  pass_at ops arc w = stopped (block ops_message arc w)
  pass_at from arc w = after_stage from (advance_stage arc w)

  -- The body of the loop of `drive`, and its test.
  unfoldable pub pass : Arc U → World U → Pass U
  unfolding advance_stage settle report_done
  pass arc w = if is_open arc.status then pass_at arc.stage arc w else stop (report_done arc) w

  -- `drive`
  unfoldable pub drive : ℕ → Arc U → World U → Option (Outcome × World U)
  unfolding pass
  drive zero arc w = none
  drive (suc fuel) arc w = go_on (drive fuel) (pass arc w)

  -- The fuel that `drive` is given.
  abbrev pub enough : ℕ
  enough = 3 * max_reworks + 5

  abbrev pub run_arc : Result (Arc U) → World U → Option (Outcome × World U)
  run_arc (ok arc) w = drive enough arc w
  run_arc (err e) w = some (error (context "run" e), w)

  -- What the checks before the arc is read answered, if they ended the command: loading the
  -- configuration, the requalification of the worker, the prompts.
  abbrev pub run_behind : Option Outcome → String → World U → Option (Outcome × World U)
  run_behind (some o) id w = some (o, w)
  run_behind none id w = run_arc (get machine.files id w.store) w

  -- `exec`, without `--relay`
  unfoldable pub run : Bool → Option Outcome → List String → World U → Option (Outcome × World U)
  unfolding drive get
  run dry_run refused [] w = some (missing_operand, w)
  run dry_run refused (id ∷ args) w =
      if dry_run then some (dry_run_unsupported, w) else run_behind refused id w
