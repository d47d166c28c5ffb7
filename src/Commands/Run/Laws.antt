-- ===== src/Commands/Run/Laws.antt =====
-- What one pass of the loop of `drive` does to the arc and to the workspace.
use mathlib.Core.Path.{subst}
use agentic_dev_harness.Shared.{suc, ◌<◌, ◌≡◌, refl, sym, ap, ◌≢◌, ◌⊎◌, inl, inr, some, arith}
use agentic_dev_harness.Adh.Error.{Result, ok, err}
use agentic_dev_harness.Adh.Stage.{
  Stage, strategy, execution, critic, evaluation, ops, next_stage, failed,
}
use agentic_dev_harness.Adh.Arc.{Arc}
use agentic_dev_harness.Authority.{ModelClass}
use agentic_dev_harness.Model.{mock, Response}
use agentic_dev_harness.Stages.{execute, stage_or, apply as stage_apply}
use agentic_dev_harness.Stages.Laws.{execute-ok}
use agentic_dev_harness.Critic.Disposition.{Verdict}
use agentic_dev_harness.Evaluation.Decide.{decide, record_disposition}
use agentic_dev_harness.Evaluation.Apply.{apply}
use agentic_dev_harness.Evaluation.Effects.{disposed, apply-disposed}
use agentic_dev_harness.Commands.World.{World, Machine}
use agentic_dev_harness.Commands.Run.{
  RunConfig, run_error, named, with_verdict, adjudicate_stage, advance_at, advance_stage,
}

module _ {U G F : Type 0} (machine : Machine) (cfg : RunConfig U G F) where
  open cfg use {level, max_reworks}

  -- What Evaluation makes of an arc: back to Execution within the budget, failed, or on to ops.
  abbrev pub Evaluated : Arc U → Arc U → Type 0
  Evaluated arc arc' =
      ((arc'.stage ≡ execution)
        × (arc'.status ≡ arc.status)
        × (arc'.reworks ≡ suc arc.reworks)
        × (arc.reworks < max_reworks))
      ⊎ ((arc'.stage ≡ arc.stage) × (arc'.status ≡ failed) × (arc'.reworks ≡ arc.reworks))
      ⊎ ((arc'.stage ≡ ops) × (arc'.status ≡ arc.status) × (arc'.reworks ≡ arc.reworks))

  -- What a turn of the model makes of one: the next stage, if there is one.
  abbrev pub Turned : Arc U → Arc U → Type 0
  Turned arc arc' =
      (arc.stage ≢ ops)
      × (arc'.status ≡ arc.status)
      × (arc'.reworks ≡ arc.reworks)
      × ((s : Stage) → next_stage arc.stage ≡ some s → arc'.stage ≡ s)

  -- What a stage makes of an arc.
  abbrev pub Advanced : Arc U → Arc U → Type 0
  Advanced arc arc' =
      (arc'.id ≡ arc.id)
      × (((arc.stage ≡ evaluation) × Evaluated arc arc')
          ⊎ ((arc.stage ≢ evaluation) × Turned arc arc'))

  pub disposed_id : (arc : Arc U) (v : Verdict) → (disposed arc v max_reworks).id ≡ arc.id
  unfolding record_disposition decide
  disposed_id arc v = ground arith

  pub disposed-Evaluated : (arc : Arc U) (v : Verdict) → Evaluated arc (disposed arc v max_reworks)
  unfolding record_disposition decide
  disposed-Evaluated arc v = ground arith

  pub turned :
      (arc arc' : Arc U)
      → arc.stage ≢ ops
      → ((resp : Response) × (arc' ≡ stage_apply arc resp))
      → (arc'.id ≡ arc.id) × Turned arc arc'
  unfolding stage_apply next_stage
  turned arc arc' p (resp, e) =
      subst (λ a. (a.id ≡ arc.id) × Turned arc a) (sym e)
        (refl, (p, refl, refl, λ s h. ap (λ o. stage_or o arc.stage) h))

  run_error_inv : (r : Result (Arc U)) (a : Arc U) → run_error r ≡ ok a → r ≡ ok a
  run_error_inv (ok b) a h = h
  run_error_inv (err e) a h = absurd (ground arith)

  -- A turn of the mock model, and the evaluation, as the loop runs them.
  executed :
      (arc arc' : Arc U) (w w' : World U)
      → named machine cfg (execute (mock "" ModelClass.unset) cfg.prompter arc cfg.judgment, w)
        ≡ (ok arc', w')
      → (w'.store ≡ w.store) × (arc'.id ≡ arc.id) × Turned arc arc'
  executed arc arc' w w' h =
      let r = execute (mock "" ModelClass.unset) cfg.prompter arc cfg.judgment in
      let same = ap (λ p. p.1.store) h in
      let (p, _, (req, resp, _, _, e)) =
        execute-ok cfg.prompter arc cfg.judgment (mock "" ModelClass.unset) arc'
          (run_error_inv r arc' (ap (λ p. p.0) h)) in
      let (id, t) = turned arc arc' p (resp, e) in (sym same, id, t)

  adjudicated :
      (arc arc' : Arc U) (w w' : World U) (r : Result Verdict)
      → named machine cfg (with_verdict machine cfg r arc w) ≡ (ok arc', w')
      → (w'.store ≡ w.store) × (arc'.id ≡ arc.id) × Evaluated arc arc'
  adjudicated arc arc' w w' (err e) h = absurd (ground arith)
  adjudicated arc arc' w w' (ok v) h =
      let run = apply machine.disk arc v cfg.record_lessons max_reworks cfg.stratum w.logs in
      let r = run_error_inv run.0 arc' (ap (λ p. p.0) h) in
      let e =
        (apply-disposed machine.disk arc v cfg.record_lessons max_reworks cfg.stratum).at w.logs
          arc' run.1 (ap (λ q. (q, run.1)) r) in
      let (id, moved) =
        subst (λ a. (a.id ≡ arc.id) × Evaluated arc a) e
          (disposed_id arc v, disposed-Evaluated arc v) in
      (sym (ap (λ p. p.1.store) h), id, moved)

  pub at_evaluation :
      (arc arc' : Arc U) (w w' : World U)
      → adjudicate_stage machine cfg arc w ≡ (ok arc', w')
      → (w'.store ≡ w.store) × (arc'.id ≡ arc.id) × Evaluated arc arc'
  unfolding adjudicate_stage
  at_evaluation arc arc' w w' h = adjudicated arc arc' w w' _ h

  -- A stage that succeeds leaves the stored arcs alone, and makes of the arc what it should.
  pub advance_stage-Advanced :
      (arc arc' : Arc U) (w w' : World U)
      → advance_stage machine cfg arc w ≡ (ok arc', w')
      → (w'.store ≡ w.store) × Advanced arc arc'
  unfolding advance_stage
  advance_stage-Advanced arc arc' w w' h = by_stage arc.stage refl h
    where
      by_stage :
          (s : Stage)
          → arc.stage ≡ s
          → advance_at machine cfg s arc w ≡ (ok arc', w')
          → (w'.store ≡ w.store) × Advanced arc arc'
      by_stage evaluation e h =
          let (same, id, moved) = at_evaluation arc arc' w w' h in (same, (id, inl (e, moved)))
      by_stage strategy e h =
          let (same, id, t) = executed arc arc' w w' h in (same, (id, inr (λ q. cc, t)))
      by_stage execution e h =
          let (same, id, t) = executed arc arc' w w' h in (same, (id, inr (λ q. cc, t)))
      by_stage critic e h =
          let (same, id, t) = executed arc arc' w w' h in (same, (id, inr (λ q. cc, t)))
      by_stage ops e h =
          let (same, id, t) = executed arc arc' w w' h in (same, (id, inr (λ q. cc, t)))
      by_stage (Stage.other s) e h =
          let (same, id, t) = executed arc arc' w w' h in (same, (id, inr (λ q. cc, t)))
