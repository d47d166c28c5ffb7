-- ===== src/Commands/Step/Moves.antt =====
-- The one transition that a step makes of an arc.
use mathlib.Core.Path.{subst}
use agentic_dev_harness.Shared.{
  ◌≡◌, refl, sym, ap, ◌∙◌, ◌≢◌, ◌⊎◌, inl, inr, Bool, true, false, Option, none, some, List, String,
  Bool-cases, if◌then◌else◌, arith,
}
use agentic_dev_harness.Adh.Error.{Result, ok, err, context}
use agentic_dev_harness.Adh.Stage.{Stage, evaluation, ops, same_stage}
use agentic_dev_harness.Adh.Arc.{Arc, Pending}
use agentic_dev_harness.Authority.{ModelClass, reasoning}
use agentic_dev_harness.Model.{mock}
use agentic_dev_harness.Stages.{execute, stage_or}
use agentic_dev_harness.Stages.Laws.{execute-ok}
use agentic_dev_harness.Store.{Store, get, save}
use agentic_dev_harness.Critic.Disposition.{Verdict}
use agentic_dev_harness.Critic.Grounding.{Inputs, Grounding, at_critic}
use agentic_dev_harness.Evaluation.Apply.{apply}
use agentic_dev_harness.Evaluation.Effects.{apply-disposed}
use agentic_dev_harness.Relay.{Relayed, emit, resume}
use agentic_dev_harness.Relay.Laws.{emit-parks, resume-advances}
use agentic_dev_harness.Commands.World.{Machine, Outcome, error}
use agentic_dev_harness.Commands.Run.{RunConfig, is_open}
use agentic_dev_harness.Commands.Run.Laws.{
  Evaluated, Turned, turned, disposed_id, disposed-Evaluated,
}
use agentic_dev_harness.Commands.Relayed.{
  Workspace, RelayConfig, Part, stop, next, saved, stored, record_coverage, after_turn, replied,
  inputs, reported, emitted, emit_with,
}
use agentic_dev_harness.Commands.Relayed.Laws.{after_turn-SameTurn, covered}
use agentic_dev_harness.Commands.Relayed.Laws.Passes.{missed}
use agentic_dev_harness.Commands.Relayed.Laws.Saves.{same_stage_refl}
use agentic_dev_harness.Commands.Step.{
  StepFlags, after_eval, applied, with_verdict, dispose_eval, advanced_to, advance, resume_at,
  step_resume, step_emit, relayed_step, is_evaluation, stepped, step,
}
use agentic_dev_harness.Commands.Step.Laws.{step_gated}

module _ {U T P F : Type 0} (machine : Machine) (cfg : RunConfig U (Grounding U T P) F)
    (relay : RelayConfig U T P) where
  -- A turn of the arc's stage is parked, and the arc stays where it is.
  abbrev pub IsParked : Arc U → Arc U → Type 0
  IsParked arc arc' =
      (arc'.stage ≡ arc.stage)
      × (arc'.status ≡ arc.status)
      × (arc'.reworks ≡ arc.reworks)
      × (p : Pending) × (arc'.pending ≡ some p)
      × (same_stage p.stage arc.stage ≡ true)

  -- The transitions: without the relay, Evaluation's or that of a turn of the model; through it, that
  -- of a reply, or a turn that is parked.
  abbrev pub Transition : Bool → Arc U → Arc U → Type 0
  Transition relayed arc arc' =
      ((relayed ≡ false) × (arc.stage ≡ evaluation) × Evaluated machine cfg arc arc')
      ⊎ ((relayed ≡ false) × (arc.stage ≢ evaluation) × Turned machine cfg arc arc')
      ⊎ ((relayed ≡ true)
          × (response : Result String) × (relay.response ≡ some response)
          × Turned machine cfg arc arc')
      ⊎ ((relayed ≡ true) × (relay.response ≡ none) × IsParked arc arc')

  -- The stored arcs are as they were, or the arc was saved behind one transition and with its id.
  abbrev pub Moves : Bool → Arc U → Workspace U → Workspace U → Type 0
  Moves relayed arc w w' =
      (w'.world.store ≡ w.world.store)
      ⊎ ((arc' : Arc U) × (save machine.files arc' w.world.store ≡ ok w'.world.store)
          × (arc'.id ≡ arc.id)
          × Transition relayed arc arc')

  module _ (relayed : Bool) (arc : Arc U) (w : Workspace U) where
    abbrev Ends : Part U → Type 0
    Ends (stop o v) = Moves relayed arc w v
    Ends (next a v) = Moves relayed arc w v

    saved-Ends :
        (name : String) (arc' : Arc U) (v : Workspace U)
        → v.world.store ≡ w.world.store
        → arc'.id ≡ arc.id
        → Transition relayed arc arc'
        → Ends (saved machine name arc' v)
    saved-Ends name arc' v same own moved = split (save machine.files arc' v.world.store) refl
      where
        split :
            (r : Result (Store U))
            → save machine.files arc' v.world.store ≡ r
            → Ends (stored machine name arc' v r)
        split (err e) h = inl same
        split (ok store) h =
            inr (arc', subst (λ s. save machine.files arc' s ≡ ok store) same h, own, moved)

    reported-Moves : (p : Part U) → Ends p → Moves relayed arc w (reported machine cfg relay p).1
    reported-Moves (stop o v) e = e
    reported-Moves (next a v) e = e

    after_eval-Moves :
        (p : Part U) → Ends p → Moves relayed arc w (after_eval machine cfg relay p).1
    after_eval-Moves (stop o v) e = e
    after_eval-Moves (next a v) e = e

  with_verdict-Moves :
      (arc : Arc U) (w : Workspace U) (r : Result Verdict)
      → arc.stage ≡ evaluation
      → Moves false arc w (with_verdict machine cfg relay arc w r).1
  with_verdict-Moves arc w (err e) at = inl refl
  with_verdict-Moves arc w (ok v) at =
      split (apply machine.disk arc v cfg.record_lessons cfg.max_reworks cfg.stratum w.world.logs)
        refl
    where
      split :
          (run : Result (Arc U) × _)
          → apply machine.disk arc v cfg.record_lessons cfg.max_reworks cfg.stratum w.world.logs
            ≡ run
          → Moves false arc w
              (applied machine cfg relay w (run.0, record w.world { logs = run.1 })).1
      split (err e, logs_) h = inl refl
      split (ok a, logs_) h =
          let w' : Workspace U = record w { world = record w.world { logs = logs_ } } in
          let e =
            (apply-disposed machine.disk arc v cfg.record_lessons cfg.max_reworks cfg.stratum).at
              w.world.logs a logs_ h in
          let (own, moved) =
            subst (λ x. (x.id ≡ arc.id) × Evaluated machine cfg arc x) e
              (disposed_id machine cfg arc v, disposed-Evaluated machine cfg arc v) in
          after_eval-Moves false arc w (saved machine "step" a w')
            (saved-Ends false arc w "step" a w' refl own (inl (refl, at, moved)))

  advance-Moves :
      (arc : Arc U) (w : Workspace U)
      → arc.stage ≢ evaluation
      → Moves false arc w (advance machine cfg relay arc w).1
  unfolding advance
  advance-Moves arc w other =
      split (execute (mock "" ModelClass.unset) cfg.prompter arc cfg.judgment) refl
    where
      split :
          (r : Result (Arc U))
          → execute (mock "" ModelClass.unset) cfg.prompter arc cfg.judgment ≡ r
          → Moves false arc w (advanced_to machine cfg relay w r).1
      split (err e) h = inl refl
      split (ok arc') h =
          let (p, _, (req, resp, _, _, e)) =
            execute-ok cfg.prompter arc cfg.judgment (mock "" ModelClass.unset) arc' h in
          let (own, t) = turned machine cfg arc arc' p (resp, e) in
          reported-Moves false arc w (saved machine "step" arc' w)
            (saved-Ends false arc w "step" arc' w refl own (inr (inl (refl, other, t))))

  replied-Moves :
      (arc : Arc U) (w : Workspace U) (response : Result String)
      → relay.response ≡ some response
      → Moves true arc w
          (reported machine cfg relay (replied machine cfg relay "step" arc w response)).1
  replied-Moves arc w (err e) at = inl refl
  replied-Moves arc w (ok text) at =
      split (resume relay.decoder arc text cfg.prompter cfg.judgment) refl
    where
      split :
          (r : Result (Arc U))
          → resume relay.decoder arc text cfg.prompter cfg.judgment ≡ r
          → let part : Part U = elim r [
            | err e ↦ stop (error (context "step" e)) w
            | ok moved ↦
                let arc' = after_turn relay arc.stage moved in
                saved machine "step" arc'
                  (if at_critic arc.stage then record_coverage relay arc' w else w)
          ] in
            Moves true arc w (reported machine cfg relay part).1
      split (err e) h = inl refl
      split (ok moved) h =
          let (_, _, not_ops, _, stage_, _, _, _, status_, reworks_, _, id) =
            resume-advances relay.decoder arc text cfg.prompter cfg.judgment moved h in
          let arc' = after_turn relay arc.stage moved in
          let same = after_turn-SameTurn machine cfg relay arc.stage moved in
          let v : Workspace U = if at_critic arc.stage then record_coverage relay arc' w else w in
          let world_ = (covered machine cfg relay (at_critic arc.stage) arc' w).world_ in
          reported-Moves true arc w (saved machine "step" arc' v) (
            saved-Ends true arc w "step" arc' v (ap (λ x. x.store) world_) (same.id_ ∙ id) (
              inr (
                inr (
                  inl (
                    refl,
                    ok text,
                    at,
                    (
                      not_ops,
                      same.status_ ∙ status_,
                      same.reworks_ ∙ reworks_,
                      λ s k. same.stage_ ∙ stage_ ∙ ap (λ o. stage_or o arc.stage) k,
                    ),
                  )))))

  resume_at-Moves :
      (pending : Option Pending) (response : Result String) (arc : Arc U) (w : Workspace U)
      → relay.response ≡ some response
      → Moves true arc w (resume_at machine cfg relay pending response arc w).1
  resume_at-Moves none response arc w at = inl refl
  resume_at-Moves (some p) response arc w at = elim (Bool-cases (same_stage p.stage arc.stage)) [
    | inl e ↦ rw e (replied-Moves arc w response at)
    | inr e ↦ rw e (inl refl)
  ]

  emit_with-Moves :
      (arc : Arc U) (w : Workspace U) (tools : Result (List T))
      → relay.response ≡ none
      → Moves true arc w (emit_with machine cfg relay "step" false arc w tools).1
  emit_with-Moves arc w (err e) at = inl refl
  emit_with-Moves arc w (ok tools_) at = split _ refl
    where
      in_ : Inputs U T
      in_ = inputs machine cfg relay false arc w tools_

      parked :
          (arc' : Arc U)
          → arc'.id ≡ arc.id
          → IsParked arc arc'
          → Moves true arc w (reported machine cfg relay (saved machine "step" arc' w)).1
      parked arc' own p =
          reported-Moves true arc w (saved machine "step" arc' w)
            (saved-Ends true arc w "step" arc' w refl own (inr (inr (inr (refl, at, p)))))

      turns :
          (arc' : Arc U) (out : Relayed)
          → emit relay.loads arc in_ cfg.prompter reasoning cfg.judgment ≡ ok (arc', out)
          → Moves true arc w (emitted machine cfg relay "step" arc w (arc', out)).1
      turns arc' out h =
          elim (emit-parks relay.loads arc in_ cfg.prompter reasoning cfg.judgment arc' out h) [
            | inl (p, pending, same, e, o) ↦
                subst (λ x. Moves true arc w (emitted machine cfg relay "step" arc w (arc', x)).1)
                  (sym o)
                  (subst
                    (λ (a : Arc U).
                      Moves true arc w (reported machine cfg relay (saved machine "step" a w)).1)
                    (sym e) (parked arc refl (refl, refl, refl, p, pending, same)))
            | inr (inl (idle, found, e, o)) ↦
                subst (λ x. Moves true arc w (emitted machine cfg relay "step" arc w (arc', x)).1)
                  (sym o) (inl (ap (λ x. x.store) (missed machine cfg relay cfg.stratum arc w)))
            | inr (inr (g, prompt, idle, found, not_ops, gate, rendered, e, o)) ↦
                subst (λ x. Moves true arc w (emitted machine cfg relay "step" arc w (arc', x)).1)
                  (sym o)
                  (subst
                    (λ (a : Arc U).
                      Moves true arc w (reported machine cfg relay (saved machine "step" a w)).1)
                    (sym e) (parked _ refl (refl, refl, refl, _, refl, same_stage_refl arc.stage)))
          ]

      split :
          (r : Result (Arc U × Relayed))
          → emit relay.loads arc in_ cfg.prompter reasoning cfg.judgment ≡ r
          → Moves true arc w
              (elim r as (λ _. Outcome × Workspace U) [
                | err e ↦ (error (context "step" e), w)
                | ok turn ↦ emitted machine cfg relay "step" arc w turn
              ]).1
      split (err e) h = inl refl
      split (ok (arc', out)) h = turns arc' out h

  is_evaluation_iff : (s : Stage) → is_evaluation machine cfg relay s ≡ true → s ≡ evaluation
  is_evaluation_iff s h = ground arith

  not_evaluation : (s : Stage) → is_evaluation machine cfg relay s ≡ false → s ≢ evaluation
  not_evaluation s h e = ground (arith, h, ap (is_evaluation machine cfg relay) e)

  stepped-Moves :
      (relayed : Bool) (arc : Arc U) (w : Workspace U)
      → Moves relayed arc w (stepped machine cfg relay relayed arc w).1
  unfolding dispose_eval step_resume step_emit
  stepped-Moves true arc w = by_response relay.response refl
    where
      by_response :
          (r : Option (Result String))
          → relay.response ≡ r
          → Moves true arc w (relayed_step machine cfg relay r arc w).1
      by_response none e = emit_with-Moves arc w relay.tools e
      by_response (some response) e = resume_at-Moves arc.pending response arc w e
  stepped-Moves false arc w = elim (Bool-cases (is_evaluation machine cfg relay arc.stage)) [
    | inl e ↦ rw e (with_verdict-Moves arc w _ (is_evaluation_iff arc.stage e))
    | inr e ↦ rw e (advance-Moves arc w (not_evaluation arc.stage e))
  ]

  -- A step either leaves the workspace as it is, or it is for an arc that is stored, open and not at
  -- ops, outside a dry run and behind the gates of the configuration, and through the relay not at
  -- Evaluation. Then the stored arcs are as they were, as after an error or a routing gap, or that
  -- arc was saved with its id behind exactly one transition: Evaluation's, a turn's of the model or of
  -- a reply to the next stage, or the parking of a turn of its stage where there is no reply.
  pub step-Moves :
      (flags : StepFlags) (refused : Option Outcome) (args : List String) (w w' : Workspace U)
      (o : Outcome)
      → step machine cfg relay flags refused args w ≡ (o, w')
      → (w' ≡ w)
        ⊎ ((id : String) × (arc : Arc U) × (get machine.files id w.world.store ≡ ok arc)
            × (is_open arc.status ≡ true)
            × (arc.stage ≢ ops)
            × (refused ≡ none)
            × (flags.dry_run ≡ false)
            × (flags.relay ≡ true → arc.stage ≢ evaluation)
            × Moves flags.relay arc w w')
  step-Moves flags refused args w w' o h =
      elim (step_gated machine cfg relay flags refused args w w' o h) [
        | inl same ↦ inl same
        | inr (id, arc, held, opened, not_ops, clear, wet, not_eval, e) ↦ inr (
          id,
          arc,
          held,
          opened,
          not_ops,
          clear,
          wet,
          not_eval,
          subst (λ (x : Outcome × Workspace U). Moves flags.relay arc w x.1) e
              (stepped-Moves flags.relay arc w),
        )
      ]
