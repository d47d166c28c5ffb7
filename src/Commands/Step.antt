-- ===== src/Commands/Step.antt =====
-- cmd/step/step.go: one transition of an arc, by the mock model, by Evaluation, or through the relay
-- in two calls. The relay's parts are those of `run --relay`, with the errors under another name.
pub mod Laws
pub mod Moves
use agentic_dev_harness.Shared.{
  Bool, true, false, ◌&&◌, Option, none, some, List, [], ◌∷◌, String, if◌then◌else◌, concat,
}
use agentic_dev_harness.Adh.Error.{Error, Result, ok, err, ◌>>=◌, context, coded, conflict}
use agentic_dev_harness.Adh.Stage.{
  Stage, evaluation, ops, stage_text, same_stage, Status, open_, failed, status_text,
}
use agentic_dev_harness.Adh.Arc.{Arc, Pending}
use agentic_dev_harness.Authority.{ModelClass}
use agentic_dev_harness.Model.{mock}
use agentic_dev_harness.Stages.{execute}
use agentic_dev_harness.Store.{get}
use agentic_dev_harness.Critic.Disposition.{Verdict}
use agentic_dev_harness.Critic.Grounding.{Grounding}
use agentic_dev_harness.Evaluation.Adjudicate.{adjudicate}
use agentic_dev_harness.Evaluation.Apply.{apply}
use agentic_dev_harness.Commands.World.{
  World, Machine, Outcome, done, error, exit, missing_operand, dry_run_unsupported,
}
use agentic_dev_harness.Commands.Run.{RunConfig, is_open}
use agentic_dev_harness.Commands.Relayed.{
  Workspace, RelayConfig, Part, stop, next, saved, replied, reported, emit_with,
}

pub record StepFlags : Type 0 where
  pub relay : Bool
  pub dry_run : Bool

abbrev conflicting : {U : Type 0} → List String → Workspace U → Outcome × Workspace U
conflicting message w = (error (coded conflict (concat message)), w)

abbrev pub eval_only : {U : Type 0} → Arc U → Workspace U → Outcome × Workspace U
eval_only arc w =
    conflicting
      ("step: arc " ∷ arc.id ∷ " is at evaluation; adjudicate its findings with `adh eval " ∷ arc.id
        ∷ "`" ∷ [])
      w

module _ {U T P F : Type 0} (machine : Machine) (cfg : RunConfig U (Grounding U T P) F)
    (relay : RelayConfig U T P) where
  -- `reportFailed` for an arc that has failed, `report` for any other
  abbrev pub after_eval : Part U → Outcome × Workspace U
  after_eval (stop o w) = (o, w)
  after_eval (next arc w) = (elim arc.status [ failed ↦ exit 1 | _ ↦ done ], w)

  abbrev pub applied : Workspace U → Result (Arc U) × World U → Outcome × Workspace U
  applied w (err e, world) = (error (context "step" e), record w { world = world })
  applied w (ok arc, world) = after_eval (saved machine "step" arc (record w { world = world }))

  abbrev pub with_verdict : Arc U → Workspace U → Result Verdict → Outcome × Workspace U
  with_verdict arc w (err e) = (error (context "step" e), w)
  with_verdict arc w (ok verdict) =
      let world : World U = w.world in
      let (r, logs_) =
        apply machine.disk arc verdict cfg.record_lessons cfg.max_reworks cfg.stratum world.logs in
      applied w (r, record world { logs = logs_ })

  -- `disposeEval`
  unfoldable pub dispose_eval : Arc U → Workspace U → Outcome × Workspace U
  unfolding adjudicate apply
  dispose_eval arc w =
      with_verdict arc w
        (cfg.adjudicator >>= λ adj. cfg.specs >>= λ s. adjudicate adj s arc.findings)

  abbrev pub advanced_to : Workspace U → Result (Arc U) → Outcome × Workspace U
  advanced_to w (err e) = (error (context "step" e), w)
  advanced_to w (ok arc) = reported machine cfg relay (saved machine "step" arc w)

  -- `advance` with the mock model
  unfoldable pub advance : Arc U → Workspace U → Outcome × Workspace U
  unfolding execute mock
  advance arc w = advanced_to w (execute (mock "" ModelClass.unset) cfg.prompter arc cfg.judgment)

  abbrev pub resume_at :
      Option Pending → Result String → Arc U → Workspace U → Outcome × Workspace U
  resume_at none response arc w =
      conflicting ("step: arc " ∷ arc.id ∷ " has no pending turn to resume" ∷ []) w
  resume_at (some p) response arc w =
      if same_stage p.stage arc.stage
      then reported machine cfg relay (replied machine cfg relay "step" arc w response)
      else conflicting
          ("step: pending turn is for "
            ∷ stage_text p.stage
            ∷ " but arc "
            ∷ arc.id
            ∷ " is at "
            ∷ stage_text arc.stage
            ∷ [])
          w

  -- `resume`
  unfoldable pub step_resume : Result String → Arc U → Workspace U → Outcome × Workspace U
  unfolding same_stage stage_text
  step_resume response arc w = resume_at arc.pending response arc w

  -- `emit`
  unfoldable pub step_emit : Arc U → Workspace U → Outcome × Workspace U
  step_emit arc w = emit_with machine cfg relay "step" false arc w relay.tools

  abbrev pub relayed_step : Option (Result String) → Arc U → Workspace U → Outcome × Workspace U
  relayed_step none arc w = step_emit arc w
  relayed_step (some response) arc w = step_resume response arc w

  abbrev pub is_evaluation : Stage → Bool
  is_evaluation evaluation = true
  is_evaluation _ = false

  -- The switch at the end of `exec`.
  abbrev pub stepped : Bool → Arc U → Workspace U → Outcome × Workspace U
  stepped true arc w = relayed_step relay.response arc w
  stepped false arc w = if is_evaluation arc.stage then dispose_eval arc w else advance arc w

  -- What loading the configuration, the requalification of the worker and the prompts answered, if
  -- they ended the command.
  abbrev pub behind_gates : Option Outcome → Bool → Arc U → Workspace U → Outcome × Workspace U
  behind_gates (some o) relayed arc w = (o, w)
  behind_gates none relayed arc w = stepped relayed arc w

  abbrev pub step_stage :
      Stage → Option Outcome → Bool → Arc U → Workspace U → Outcome × Workspace U
  step_stage ops refused relayed arc w = (exit 4, w)
  step_stage s refused relayed arc w =
      if relayed && is_evaluation s then eval_only arc w else behind_gates refused relayed arc w

  abbrev pub step_open : Option Outcome → Bool → Arc U → Workspace U → Outcome × Workspace U
  step_open refused relayed arc w =
      if is_open arc.status
      then step_stage arc.stage refused relayed arc w
      else conflicting
          ("step: arc " ∷ arc.id ∷ " is not open (status " ∷ status_text arc.status ∷ ")" ∷ []) w

  -- `exec`
  unfoldable pub step :
      StepFlags → Option Outcome → List String → Workspace U → Outcome × Workspace U
  unfolding get dispose_eval advance step_resume step_emit status_text
  step flags refused [] w = (missing_operand, w)
  step flags refused (id ∷ args) w =
      if flags.dry_run
      then (dry_run_unsupported, w)
      else elim (get machine.files id w.world.store) [
        | ok arc ↦ step_open refused flags.relay arc w
        | err e ↦ (error (context "step" e), w)
      ]
