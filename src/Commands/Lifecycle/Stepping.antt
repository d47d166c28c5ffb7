-- ===== src/Commands/Lifecycle/Stepping.antt =====
-- What `step` may have done to the store, whichever way it takes its transition.
use mathlib.Core.Path.{subst}
use agentic_dev_harness.Shared.{
  ◌≡◌, refl, ap, inl, inr, Bool, true, false, Option, none, some, List, String, Bool-cases,
}
use agentic_dev_harness.Adh.Error.{Result, ok, err}
use agentic_dev_harness.Adh.Stage.{same_stage}
use agentic_dev_harness.Adh.Arc.{Arc, Pending}
use agentic_dev_harness.Authority.{ModelClass}
use agentic_dev_harness.Model.{mock, Response}
use agentic_dev_harness.Stages.{execute, apply as stage_apply}
use agentic_dev_harness.Stages.Laws.{execute-ok}
use agentic_dev_harness.Store.{Store}
use agentic_dev_harness.Critic.Disposition.{Verdict}
use agentic_dev_harness.Critic.Grounding.{Grounding}
use agentic_dev_harness.Evaluation.Apply.{apply}
use agentic_dev_harness.Evaluation.Effects.{apply-disposed}
use agentic_dev_harness.Commands.World.{World, Machine, Outcome}
use agentic_dev_harness.Commands.Run.{RunConfig}
use agentic_dev_harness.Commands.Run.Laws.{disposed_id}
use agentic_dev_harness.Commands.Relayed.{Workspace, RelayConfig, Part, stop, next, saved}
use agentic_dev_harness.Commands.Step.{
  StepFlags, after_eval, applied, with_verdict, dispose_eval, advanced_to, advance, resume_at,
  step_resume, step_emit, relayed_step, is_evaluation, stepped, step,
}
use agentic_dev_harness.Commands.Step.Laws.{step_gated}
use agentic_dev_harness.Commands.Lifecycle.Touches.{Touches, Touches-refl, get-lookup}
use agentic_dev_harness.Commands.Lifecycle.Effects.{Effect}
use agentic_dev_harness.Commands.Lifecycle.Parts.{
  open_live, Writes, Keeps, saved-Keeps, saving-Writes, same-Writes, emit_with-Writes,
  replied-Writes,
}

applied_id :
    {U : Type 0} (arc arc' : Arc U) (resp : Response)
    → arc' ≡ stage_apply arc resp
    → arc'.id ≡ arc.id
unfolding stage_apply
applied_id arc arc' resp e = ap (λ a. a.id) e

module _ {U T P F : Type 0} (machine : Machine) (cfg : RunConfig U (Grounding U T P) F)
    (relay : RelayConfig U T P) where
  advance-Writes :
      (arc : Arc U) (w : Workspace U)
      → Writes machine cfg relay arc.id w (advance machine cfg relay arc w)
  unfolding advance
  advance-Writes arc w =
      split (execute (mock "" ModelClass.unset) cfg.prompter arc cfg.judgment) refl
    where
      split :
          (r : Result (Arc U))
          → execute (mock "" ModelClass.unset) cfg.prompter arc cfg.judgment ≡ r
          → Writes machine cfg relay arc.id w (advanced_to machine cfg relay w r)
      split (err e) h = Touches-refl arc.id w.world.store w.world.store refl
      split (ok arc') h =
          let (_, _, (req, resp, _, _, e)) =
            execute-ok cfg.prompter arc cfg.judgment (mock "" ModelClass.unset) arc' h in
          saving-Writes machine cfg relay "step" arc arc' w w (applied_id arc arc' resp e) refl

  emit-Writes :
      (arc : Arc U) (w : Workspace U)
      → Writes machine cfg relay arc.id w (step_emit machine cfg relay arc w)
  unfolding step_emit
  emit-Writes arc w = emit_with-Writes machine cfg relay "step" false arc w relay.tools

  resume_at-Writes :
      (pending : Option Pending) (response : Result String) (arc : Arc U) (w : Workspace U)
      → Writes machine cfg relay arc.id w (resume_at machine cfg relay pending response arc w)
  resume_at-Writes none response arc w = same-Writes machine cfg relay arc.id w w refl
  resume_at-Writes (some p) response arc w = elim (Bool-cases (same_stage p.stage arc.stage)) [
    | inl e ↦ rw e (replied-Writes machine cfg relay "step" arc w response)
    | inr e ↦ rw e (same-Writes machine cfg relay arc.id w w refl)
  ]

  resume-Writes :
      (response : Result String) (arc : Arc U) (w : Workspace U)
      → Writes machine cfg relay arc.id w (step_resume machine cfg relay response arc w)
  unfolding step_resume
  resume-Writes response arc w = resume_at-Writes arc.pending response arc w

  after_eval-Keeps :
      (id : String) (s : Store U) (p : Part U)
      → Keeps machine cfg relay id s p
      → Touches id s (after_eval machine cfg relay p).1.world.store
  after_eval-Keeps id s (stop o w) k = k
  after_eval-Keeps id s (next arc w) k = k.1

  applied-Writes :
      (id : String) (w : Workspace U) (r : Result (Arc U) × World U)
      → r.1.store ≡ w.world.store
      → ((a : Arc U) → r.0 ≡ ok a → a.id ≡ id)
      → Writes machine cfg relay id w (applied machine cfg relay w r)
  applied-Writes id w (err e, world) same own = Touches-refl id w.world.store world.store same
  applied-Writes id w (ok arc, world) same own =
      let w' : Workspace U = record w { world = world } in
      after_eval-Keeps id w.world.store (saved machine "step" arc w')
        (saved-Keeps machine cfg relay "step" id arc w' w.world.store (own arc refl) same)

  with_verdict-Writes :
      (arc : Arc U) (w : Workspace U) (r : Result Verdict)
      → Writes machine cfg relay arc.id w (with_verdict machine cfg relay arc w r)
  with_verdict-Writes arc w (err e) = same-Writes machine cfg relay arc.id w w refl
  with_verdict-Writes arc w (ok v) =
      let run =
        apply machine.disk arc v cfg.record_lessons cfg.max_reworks cfg.stratum w.world.logs in
      applied-Writes arc.id w (run.0, record w.world { logs = run.1 }) refl
        (λ a h.
          let e =
            (apply-disposed machine.disk arc v cfg.record_lessons cfg.max_reworks cfg.stratum).at
              w.world.logs a run.1 (ap (λ q. (q, run.1)) h) in
          subst (λ x. x.id ≡ arc.id) e (disposed_id machine cfg arc v))

  dispose_eval-Writes :
      (arc : Arc U) (w : Workspace U)
      → Writes machine cfg relay arc.id w (dispose_eval machine cfg relay arc w)
  unfolding dispose_eval
  dispose_eval-Writes arc w = with_verdict-Writes arc w _

  stepped-Writes :
      (relayed : Bool) (arc : Arc U) (w : Workspace U)
      → Writes machine cfg relay arc.id w (stepped machine cfg relay relayed arc w)
  stepped-Writes true arc w = by_response relay.response
    where
      by_response :
          (r : Option (Result String))
          → Writes machine cfg relay arc.id w (relayed_step machine cfg relay r arc w)
      by_response none = emit-Writes arc w
      by_response (some response) = resume-Writes response arc w
  stepped-Writes false arc w = elim (Bool-cases (is_evaluation machine cfg relay arc.stage)) [
    | inl e ↦ rw e (dispose_eval-Writes arc w)
    | inr e ↦ rw e (advance-Writes arc w)
  ]

  pub step-Effect :
      (flags : StepFlags) (refused : Option Outcome) (args : List String) (w w' : Workspace U)
      (o : Outcome)
      → step machine cfg relay flags refused args w ≡ (o, w')
      → Effect w.world.store w'.world.store
  step-Effect flags refused args w w' o h =
      elim (step_gated machine cfg relay flags refused args w w' o h) [
        | inl same ↦ inl (ap (λ (v : Workspace U). v.world.store) same)
        | inr (id, arc, held_, opened, _, _, _, _, e) ↦ inr (
          id,
          arc,
          get-lookup machine.files id w.world.store arc held_,
          open_live arc opened,
          subst (λ (x : Outcome × Workspace U). Writes machine cfg relay arc.id w x) e
              (stepped-Writes flags.relay arc w),
        )
      ]
