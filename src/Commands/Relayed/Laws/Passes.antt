-- ===== src/Commands/Relayed/Laws/Passes.antt =====
-- How the loop of `driveRelay` ends.
use mathlib.Core.Path.{subst}
use agentic_dev_harness.Shared.{
  ◌≡◌, refl, sym, ap, ◌∙◌, lookup, ◌≢◌, ◌⊎◌, inl, inr, true, false, some, List, String, Bool-cases,
  arith,
}
use agentic_dev_harness.Adh.Error.{Result, ok, err, context}
use agentic_dev_harness.Adh.Stage.{Stage, strategy, execution, critic, evaluation, ops}
use agentic_dev_harness.Adh.Arc.{Arc}
use agentic_dev_harness.Authority.{reasoning}
use agentic_dev_harness.Critic.Grounding.{Inputs, Grounding}
use agentic_dev_harness.Store.{path}
use agentic_dev_harness.Relay.{Relayed, emit}
use agentic_dev_harness.Relay.Laws.{emit-parks}
use agentic_dev_harness.Commands.World.{World, Machine, Outcome, done, error}
use agentic_dev_harness.Commands.Run.{
  RunConfig, adjudicate_stage, blocked_with, is_open, ops_message, report_done,
}
use agentic_dev_harness.Commands.Run.Laws.{Evaluated, at_evaluation}
use agentic_dev_harness.Commands.Relayed.{
  Workspace, RelayConfig, Part, next, record_miss, saved, inputs, reported, emitted, emit_with,
  emit_relay, evaluated, relay_at, relay_pass, relay_loop,
}
use agentic_dev_harness.Commands.Relayed.Laws.Saves.{
  saved_cases, Resting, at_gate, turn_open, Ends, fails, finds_gap, is_over, rests, Ended,
  same_stage_refl, lookup-inserted, Stops,
}

module _ {U T P F : Type 0} (machine : Machine) (cfg : RunConfig U (Grounding U T P) F)
    (relay : RelayConfig U T P) where
  -- The arc stands in the file of its id.
  abbrev Holds : Arc U → Workspace U → Type 0
  Holds arc w = lookup (path arc.id) w.world.store ≡ some arc

  reported-Ended :
      (name : String) (arc : Arc U) (w : Workspace U)
      → Resting arc done
      → Ended arc.id (reported machine cfg relay (saved machine name arc w))
  reported-Ended name arc w rest = elim (saved_cases machine name arc w) [
    | inl (e, h) ↦ rw h (fails e)
    | inr h ↦ rw h (rests arc refl (lookup-inserted (path arc.id) arc w.world.store) rest)
  ]

  -- A miss is recorded beside the world.
  pub missed :
      (stratum : String) (arc : Arc U) (w : Workspace U)
      → (record_miss relay stratum arc w).world ≡ w.world
  unfolding record_miss
  missed stratum arc w = elim (Bool-cases relay.misses_written) [
    | inl e ↦ rw e refl
    | inr e ↦ rw e refl
  ]

  emitted-Ended :
      (arc : Arc U) (w : Workspace U) (in_ : Inputs U T) (arc' : Arc U) (out : Relayed)
      → is_open arc.status ≡ true
      → Holds arc w
      → emit relay.loads arc in_ cfg.prompter reasoning cfg.judgment ≡ ok (arc', out)
      → Ended arc.id (emitted machine cfg relay "run" arc w (arc', out))
  emitted-Ended arc w in_ arc' out opened held h =
      elim (emit-parks relay.loads arc in_ cfg.prompter reasoning cfg.judgment arc' out h) [
        | inl (p, pending, same, e, o) ↦
            subst (λ x. Ended arc.id (emitted machine cfg relay "run" arc w (arc', x))) (sym o)
              (subst
                (λ (a : Arc U). Ended arc.id (reported machine cfg relay (saved machine "run" a w)))
                (sym e) (reported-Ended "run" arc w (turn_open opened p pending same)))
        | inr (inl (idle, found, e, o)) ↦
            subst (λ x. Ended arc.id (emitted machine cfg relay "run" arc w (arc', x))) (sym o)
              (rests arc refl
                (ap (λ v. lookup (path arc.id) v.store) (missed cfg.stratum arc w) ∙ held)
                (finds_gap opened idle))
        | inr (inr (g, prompt, idle, found, not_ops, gate, rendered, e, o)) ↦
            subst (λ x. Ended arc.id (emitted machine cfg relay "run" arc w (arc', x))) (sym o)
              (subst
                (λ (a : Arc U). Ended arc.id (reported machine cfg relay (saved machine "run" a w)))
                (sym e)
                (reported-Ended "run" _ w (turn_open opened _ refl (same_stage_refl arc.stage))))
      ]

  emit_relay-Ended :
      (arc : Arc U) (w : Workspace U)
      → is_open arc.status ≡ true
      → Holds arc w
      → Ended arc.id (emit_relay machine cfg relay arc w)
  unfolding emit_relay
  emit_relay-Ended arc w opened held = split relay.tools
    where
      turned :
          (in_ : Inputs U T) (r : Result (Arc U × Relayed))
          → emit relay.loads arc in_ cfg.prompter reasoning cfg.judgment ≡ r
          → Ended {U = U} arc.id (elim r [
            | err e ↦ (error (context "run" e), w)
            | ok turn ↦ emitted machine cfg relay "run" arc w turn
          ])
      turned in_ (err e) h = fails (context "run" e)
      turned in_ (ok (arc', out)) h = emitted-Ended arc w in_ arc' out opened held h

      split :
          (tools : Result (List T))
          → Ended arc.id (emit_with machine cfg relay "run" true arc w tools)
      split (err e) = fails (context "run" e)
      split (ok tools) = turned (inputs machine cfg relay true arc w tools) _ refl

  relay_at-Stops :
      (s : Stage) (arc : Arc U) (w : Workspace U)
      → arc.stage ≡ s
      → s ≢ evaluation
      → is_open arc.status ≡ true
      → Holds arc w
      → Stops arc.id (relay_at machine cfg relay s arc w)
  relay_at-Stops ops arc w e other opened held = (
    _,
    _,
    refl,
    reported-Ended "run" (blocked_with machine cfg ops_message arc) w (at_gate e refl),
  )
  relay_at-Stops evaluation arc w e other opened held = absurd (other refl)
  relay_at-Stops strategy arc w e other opened held =
      (_, _, refl, emit_relay-Ended arc w opened held)
  relay_at-Stops execution arc w e other opened held =
      (_, _, refl, emit_relay-Ended arc w opened held)
  relay_at-Stops critic arc w e other opened held = (_, _, refl, emit_relay-Ended arc w opened held)
  relay_at-Stops (Stage.other s) arc w e other opened held =
      (_, _, refl, emit_relay-Ended arc w opened held)

  -- A pass ends the command unless Evaluation is up.
  relay_pass-Stops :
      (arc : Arc U) (w : Workspace U)
      → (arc.stage ≢ evaluation) ⊎ (is_open arc.status ≡ false)
      → Holds arc w
      → Stops arc.id (relay_pass machine cfg relay arc w)
  unfolding relay_pass
  relay_pass-Stops arc w h held = elim (Bool-cases (is_open arc.status)) [
    | inl opened ↦
        rw opened (relay_at-Stops arc.stage arc w refl (not_evaluation opened h) opened held)
    | inr over ↦ rw over (report_done arc, w, refl, rests arc refl held (is_over over))
  ]
    where
      not_evaluation :
          is_open arc.status ≡ true
          → (arc.stage ≢ evaluation) ⊎ (is_open arc.status ≡ false)
          → arc.stage ≢ evaluation
      not_evaluation opened (inl other) = other
      not_evaluation opened (inr over) = absurd (ground (arith, opened, over))

  -- A part goes on with an arc of the id that is stored and not up for Evaluation again.
  abbrev Leaves : String → Part U → Type 0
  Leaves id part =
      (arc' : Arc U) × (w' : Workspace U) × (part ≡ next arc' w')
      × ((arc'.stage ≢ evaluation) ⊎ (is_open arc'.status ≡ false))
      × (arc'.id ≡ id)
      × Holds arc' w'

  -- Evaluation ends the command, or goes on with an arc that it moved.
  evaluated_cases :
      (arc : Arc U) (w : Workspace U) (r : Result (Arc U)) (world : World U)
      → adjudicate_stage machine cfg arc w.world ≡ (r, world)
      → Stops arc.id (evaluated machine cfg relay w (r, world))
        ⊎ Leaves arc.id (evaluated machine cfg relay w (r, world))
  evaluated_cases arc w (err e) world h = inl (_, _, refl, fails e)
  evaluated_cases arc w (ok arc') world h =
      let (_, own, moved) = at_evaluation machine cfg arc arc' w.world world h in
      elim (saved_cases machine "run" arc' (record w { world = world })) [
        | inl (e, k) ↦ inl (_, _, k, fails e)
        | inr k ↦
            inr (arc', _, k, leaves moved, own, lookup-inserted (path arc'.id) arc' world.store)
      ]
    where
      leaves :
          Evaluated machine cfg arc arc' → (arc'.stage ≢ evaluation) ⊎ (is_open arc'.status ≡ false)
      leaves (inl (e, a, b, c)) = inl (λ k. cc)
      leaves (inr (inl (e, f, c))) = inr (rw f refl)
      leaves (inr (inr (e, b, c))) = inl (λ k. cc)

  relay_pass_cases :
      (arc : Arc U) (w : Workspace U)
      → Holds arc w
      → Stops arc.id (relay_pass machine cfg relay arc w)
        ⊎ Leaves arc.id (relay_pass machine cfg relay arc w)
  unfolding relay_pass
  relay_pass_cases arc w held = elim (Bool-cases (is_open arc.status)) [
    | inl opened ↦ rw opened (by_stage arc.stage refl opened)
    | inr over ↦ inl (relay_pass-Stops arc w (inr over) held)
  ]
    where
      by_stage :
          (s : Stage)
          → arc.stage ≡ s
          → is_open arc.status ≡ true
          → Stops arc.id (relay_at machine cfg relay s arc w)
            ⊎ Leaves arc.id (relay_at machine cfg relay s arc w)
      by_stage evaluation e o = evaluated_cases arc w _ _ refl
      by_stage strategy e o = inl (relay_at-Stops strategy arc w e (λ k. cc) o held)
      by_stage execution e o = inl (relay_at-Stops execution arc w e (λ k. cc) o held)
      by_stage critic e o = inl (relay_at-Stops critic arc w e (λ k. cc) o held)
      by_stage ops e o = inl (relay_at-Stops ops arc w e (λ k. cc) o held)
      by_stage (Stage.other s) e o = inl (relay_at-Stops (Stage.other s) arc w e (λ k. cc) o held)

  pub relay_loop-Ends :
      (arc : Arc U) (w : Workspace U)
      → Holds arc w
      → (o : Outcome) × (w' : Workspace U) × (relay_loop machine cfg relay 2 arc w ≡ some (o, w'))
        × Ends arc.id w' o
  unfolding relay_loop
  relay_loop-Ends arc w held = elim (relay_pass_cases arc w held) [
    | inl (o, w', e, ends) ↦ (o, w', rw e refl, ends)
    | inr (arc', w', e, left, own, held') ↦
        let (o, w'', e', ends) = relay_pass-Stops arc' w' left held' in
        (o, w'', rw (e, e') refl, subst (λ i. Ends i w'' o) own ends)
  ]
