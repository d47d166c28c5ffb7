-- ===== src/Commands/Step/Laws.antt =====
-- When a step may change the workspace.
use agentic_dev_harness.Shared.{
  ◌≡◌, refl, sym, ap, ◌≢◌, ◌⊎◌, inl, inr, Bool, true, false, ◌&&◌, Option, none, some, List, [],
  ◌∷◌, String, Bool-cases, if◌then◌else◌, arith,
}
use agentic_dev_harness.Adh.Error.{Result, ok, err, context}
use agentic_dev_harness.Adh.Stage.{Stage, strategy, execution, critic, evaluation, ops}
use agentic_dev_harness.Adh.Arc.{Arc}
use agentic_dev_harness.Store.{get}
use agentic_dev_harness.Critic.Grounding.{Grounding}
use agentic_dev_harness.Commands.World.{Machine, Outcome, error}
use agentic_dev_harness.Commands.Run.{RunConfig, is_open}
use agentic_dev_harness.Commands.Relayed.{Workspace, RelayConfig}
use agentic_dev_harness.Commands.Step.{
  StepFlags, eval_only, stepped, behind_gates, step_stage, step_open, step,
}

module _ {U T P F : Type 0} (machine : Machine) (cfg : RunConfig U (Grounding U T P) F)
    (relay : RelayConfig U T P) (refused : Option Outcome) (relayed : Bool) (arc : Arc U)
    (w w' : Workspace U) (o : Outcome) where
  -- The end of a step that did not reach its transition, or that did.
  abbrev Gated : Type 0
  Gated =
      (w' ≡ w)
      ⊎ ((arc.stage ≢ ops)
          × (refused ≡ none)
          × (relayed ≡ true → arc.stage ≢ evaluation)
          × (stepped machine cfg relay relayed arc w ≡ (o, w')))

  behind_gates_cases :
      arc.stage ≢ ops
      → (relayed ≡ true → arc.stage ≢ evaluation)
      → (r : Option Outcome) → refused ≡ r
      → behind_gates machine cfg relay r relayed arc w ≡ (o, w')
      → Gated
  behind_gates_cases not_ops not_eval (some p) e h = inl (sym (ap (λ x. x.1) h))
  behind_gates_cases not_ops not_eval none e h = inr (not_ops, e, not_eval, h)

  -- A stage behind the test of the relay, if it is not ops.
  behind_relay :
      (e : Bool)
      → arc.stage ≢ ops
      → (e ≡ false → arc.stage ≢ evaluation)
      → (if relayed && e
          then eval_only arc w
          else behind_gates machine cfg relay refused relayed arc w)
        ≡ (o, w')
      → Gated
  behind_relay e not_ops not_eval h = elim (Bool-cases (relayed && e)) [
    | inl stops ↦ inl (sym (ap (λ x. x.1) (rw stops at h)))
    | inr goes ↦
        behind_gates_cases not_ops (λ r. not_eval (ground (arith, r, goes))) refused refl
          (rw goes at h)
  ]

  step_stage_cases :
      (s : Stage)
      → arc.stage ≡ s
      → step_stage machine cfg relay s refused relayed arc w ≡ (o, w')
      → Gated
  step_stage_cases ops e h = inl (sym (ap (λ x. x.1) h))
  step_stage_cases evaluation e h = behind_relay true (λ k. cc) (λ k. absurd (ground (arith, k))) h
  step_stage_cases strategy e h = behind_relay false (λ k. cc) (λ k q. cc) h
  step_stage_cases execution e h = behind_relay false (λ k. cc) (λ k q. cc) h
  step_stage_cases critic e h = behind_relay false (λ k. cc) (λ k q. cc) h
  step_stage_cases (Stage.other s) e h = behind_relay false (λ k. cc) (λ k q. cc) h

  step_open_cases :
      step_open machine cfg relay refused relayed arc w ≡ (o, w')
      → (w' ≡ w) ⊎ ((is_open arc.status ≡ true) × Gated)
  step_open_cases h = elim (Bool-cases (is_open arc.status)) [
    | inl opened ↦ inr (opened, step_stage_cases arc.stage refl (rw opened at h))
    | inr over ↦ inl (sym (ap (λ x. x.1) (rw over at h)))
  ]

module _ {U T P F : Type 0} (machine : Machine) (cfg : RunConfig U (Grounding U T P) F)
    (relay : RelayConfig U T P) where
  -- A step either leaves the workspace as it is, or it ended as `stepped` does for an arc that is
  -- stored, open and not at ops, outside a dry run and behind the gates of the configuration; and
  -- through the relay never for one at Evaluation.
  pub step_gated :
      (flags : StepFlags) (refused : Option Outcome) (args : List String) (w w' : Workspace U)
      (o : Outcome)
      → step machine cfg relay flags refused args w ≡ (o, w')
      → (w' ≡ w)
        ⊎ ((id : String) × (arc : Arc U) × (get machine.files id w.world.store ≡ ok arc)
            × (is_open arc.status ≡ true)
            × (arc.stage ≢ ops)
            × (refused ≡ none)
            × (flags.dry_run ≡ false)
            × (flags.relay ≡ true → arc.stage ≢ evaluation)
            × (stepped machine cfg relay flags.relay arc w ≡ (o, w')))
  unfolding step
  step_gated flags refused [] w w' o h = inl (sym (ap (λ x. x.1) h))
  step_gated flags refused (id ∷ args) w w' o h = elim (Bool-cases flags.dry_run) [
    | inl dry ↦ inl (sym (ap (λ x. x.1) (rw dry at h)))
    | inr wet ↦ split wet (get machine.files id w.world.store) refl (rw wet at h)
  ]
    where
      split :
          flags.dry_run ≡ false
          → (r : Result (Arc U)) → get machine.files id w.world.store ≡ r
          → elim r [
            | ok arc ↦ step_open machine cfg relay refused flags.relay arc w
            | err e ↦ (error (context "step" e), w)
          ]
            ≡ (o, w')
          → (w' ≡ w)
            ⊎ ((id : String) × (arc : Arc U) × (get machine.files id w.world.store ≡ ok arc)
                × (is_open arc.status ≡ true)
                × (arc.stage ≢ ops)
                × (refused ≡ none)
                × (flags.dry_run ≡ false)
                × (flags.relay ≡ true → arc.stage ≢ evaluation)
                × (stepped machine cfg relay flags.relay arc w ≡ (o, w')))
      split wet (err e) g h = inl (sym (ap (λ x. x.1) h))
      split wet (ok arc) g h =
          elim (step_open_cases machine cfg relay refused flags.relay arc w w' o h) [
            | inl same ↦ inl same
            | inr (opened, inl same) ↦ inl same
            | inr (opened, inr (not_ops, clear, not_eval, e)) ↦
                inr (id, arc, g, opened, not_ops, clear, wet, not_eval, e)
          ]
