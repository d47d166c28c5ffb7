-- ===== src/Commands/Lifecycle/Relaying.antt =====
-- What `run --relay` may have done to the store.
use mathlib.Core.Path.{subst}
use agentic_dev_harness.Shared.{
  ℕ, zero, suc, ◌≡◌, refl, sym, ap, ◌∙◌, ◌⊎◌, inl, inr, Bool, true, false, Option, none, some, List,
  [], ◌∷◌, String, Bool-cases, insert, arith, some_inj,
}
use agentic_dev_harness.Adh.Error.{Result, ok, err}
use agentic_dev_harness.Adh.Stage.{Stage, strategy, execution, critic, evaluation, ops}
use agentic_dev_harness.Adh.Arc.{Arc}
use agentic_dev_harness.Store.{path, Store, get}
use agentic_dev_harness.Critic.Grounding.{Grounding}
use agentic_dev_harness.Relay.{has_turn}
use agentic_dev_harness.Commands.World.{World, Machine, Outcome}
use agentic_dev_harness.Commands.Run.{
  RunConfig, adjudicate_stage, blocked_with, is_open, ops_message, report_done,
}
use agentic_dev_harness.Commands.Run.Laws.{at_evaluation}
use agentic_dev_harness.Commands.Relayed.{
  Workspace, RelayConfig, Part, stop, next, emit_relay, evaluated, relay_at, relay_pass, carry_on,
  relay_loop, resumed, resume_relay, drive_relay, relay_arc, run_relayed,
}
use agentic_dev_harness.Commands.Relayed.Laws.{resume_relay-cases}
use agentic_dev_harness.Commands.Lifecycle.Touches.{
  Touches, Touches-refl, Touches-trans, insert-Touches, get-lookup,
}
use agentic_dev_harness.Commands.Lifecycle.Effects.{Spares, IsReleased}
use agentic_dev_harness.Commands.Lifecycle.Drive.{adjudicate_store}
use agentic_dev_harness.Commands.Lifecycle.Parts.{
  open_live, Keeps, saved-Keeps, saving-Writes, emit_with-Writes,
}

module _ {U T P F : Type 0} (machine : Machine) (cfg : RunConfig U (Grounding U T P) F)
    (relay : RelayConfig U T P) where
  evaluated-Keeps :
      (id : String) (w : Workspace U) (r : Result (Arc U) × World U)
      → r.1.store ≡ w.world.store
      → ((a : Arc U) → r.0 ≡ ok a → a.id ≡ id)
      → Keeps machine cfg relay id w.world.store (evaluated machine cfg relay w r)
  evaluated-Keeps id w (err e, world) same own = Touches-refl id w.world.store world.store same
  evaluated-Keeps id w (ok arc, world) same own =
      saved-Keeps machine cfg relay "run" id arc (record w { world = world }) w.world.store
        (own arc refl) same

  relay_at-Keeps :
      (s : Stage) (arc : Arc U) (w : Workspace U)
      → Keeps machine cfg relay arc.id w.world.store (relay_at machine cfg relay s arc w)
  unfolding emit_relay
  relay_at-Keeps ops arc w =
      saving-Writes machine cfg relay "run" arc (blocked_with machine cfg ops_message arc) w w refl
        refl
  relay_at-Keeps evaluation arc w =
      let r = adjudicate_stage machine cfg arc w.world in
      evaluated-Keeps arc.id w r (adjudicate_store machine cfg arc w.world)
        (λ a h. (at_evaluation machine cfg arc a w.world r.1 (ap (λ x. (x, r.1)) h)).1)
  relay_at-Keeps strategy arc w = emit_with-Writes machine cfg relay "run" true arc w relay.tools
  relay_at-Keeps execution arc w = emit_with-Writes machine cfg relay "run" true arc w relay.tools
  relay_at-Keeps critic arc w = emit_with-Writes machine cfg relay "run" true arc w relay.tools
  relay_at-Keeps (Stage.other s) arc w =
      emit_with-Writes machine cfg relay "run" true arc w relay.tools

  relay_pass-Keeps :
      (arc : Arc U) (w : Workspace U)
      → Keeps machine cfg relay arc.id w.world.store (relay_pass machine cfg relay arc w)
  unfolding relay_pass
  relay_pass-Keeps arc w = elim (Bool-cases (is_open arc.status)) [
    | inl e ↦ rw e (relay_at-Keeps arc.stage arc w)
    | inr e ↦ rw e (Touches-refl arc.id w.world.store w.world.store refl)
  ]

  TouchedBy : ℕ → Type 0
  TouchedBy fuel =
      (arc : Arc U) (w w' : Workspace U) (o : Outcome)
      → relay_loop machine cfg relay fuel arc w ≡ some (o, w')
      → Touches arc.id w.world.store w'.world.store

  carried-Touches :
      (fuel : ℕ)
      → TouchedBy fuel
      → (id : String) (s : Store U) (p : Part U) (w' : Workspace U) (o : Outcome)
      → Keeps machine cfg relay id s p
      → carry_on machine cfg relay (relay_loop machine cfg relay fuel) p ≡ some (o, w')
      → Touches id s w'.world.store
  unfolding TouchedBy
  carried-Touches fuel loop id s (stop o' v) w' o first h =
      let same : v ≡ w' = ap (λ (x : Outcome × Workspace U). x.1) (some_inj h) in
      subst (λ (x : Workspace U). Touches id s x.world.store) same first
  carried-Touches fuel loop id s (next arc v) w' o (own, first) h =
      let later : Touches id v.world.store w'.world.store =
        subst (λ i. Touches i v.world.store w'.world.store) own (loop arc v w' o h) in
      Touches-trans id s v.world.store w'.world.store first later

  loop-Touches : (fuel : ℕ) → TouchedBy fuel
  unfolding relay_loop TouchedBy
  loop-Touches zero arc w w' o h = absurd (ground (arith, h))
  loop-Touches (suc fuel) arc w w' o h =
      carried-Touches fuel (loop-Touches fuel) arc.id w.world.store
        (relay_pass machine cfg relay arc w) w' o (relay_pass-Keeps arc w) h

  -- Of an arc, what `driveRelay` leaves: the store as it is, or the arc was not shipped.
  abbrev Drives : Arc U → Workspace U → Workspace U → Type 0
  Drives arc w w' =
      (w'.world.store ≡ w.world.store)
      ⊎ ((IsReleased arc → ⊥) × Touches arc.id w.world.store w'.world.store)

  ended_same :
      (o o' : Outcome) (w v w' : Workspace U)
      → v.world ≡ w.world
      → ◌≡◌ {A = Option (Outcome × Workspace U)} (some (o', v)) (some (o, w'))
      → w'.world.store ≡ w.world.store
  ended_same o o' w v w' same h =
      sym (ap (λ (x : Outcome × Workspace U). x.1.world.store) (some_inj h))
      ∙ ap (λ (x : World U). x.store) same

  resumed-Drives :
      (response : Option (Result String)) (arc : Arc U) (w w' : Workspace U) (o : Outcome)
      → carry_on machine cfg relay
          (relay_loop machine cfg relay 2)
          (resumed machine cfg relay response arc w)
        ≡ some (o, w')
      → Drives arc w w'
  unfolding TouchedBy relay_loop relay_pass resume_relay
  resumed-Drives none arc w w' o h = elim (Bool-cases (is_open arc.status)) [
    | inl e ↦ inr (λ s. open_live arc e s.0, loop-Touches 2 arc w w' o h)
    | inr e ↦ inl (ended_same o (report_done arc) w w w' refl (rw e at h))
  ]
  resumed-Drives (some (err e)) arc w w' o h = elim (Bool-cases (has_turn arc.pending arc.stage)) [
    | inl t ↦ inl (ended_same o _ w w w' refl (rw t at h))
    | inr t ↦ inl (ended_same o _ w w w' refl (rw t at h))
  ]
  resumed-Drives (some (ok text)) arc w w' o h =
      elim (resume_relay-cases machine cfg relay text arc w) [
        | inl (e, v, k, same, _, _) ↦ inl (ended_same o _ w v w' same (rw k at h))
        | inr (arc', v, k, answered) ↦
            let first : Touches arc.id w.world.store v.world.store =
              subst (λ s. Touches arc.id w.world.store s) (sym answered.store_)
                (subst (λ i. Touches i w.world.store (insert (path arc'.id) arc' w.world.store))
                  answered.id_ (insert-Touches arc' w.world.store)) in
            let later : Touches arc.id v.world.store w'.world.store =
              subst (λ i. Touches i v.world.store w'.world.store) answered.id_
                (loop-Touches 2 arc' v w' o (rw k at h)) in
            inr (
              λ s. answered.not_ops s.1,
              Touches-trans arc.id w.world.store v.world.store w'.world.store first later,
            )
      ]

  relay_arc-Spares :
      (id : String) (r : Result (Arc U)) (w w' : Workspace U) (o : Outcome)
      → get machine.files id w.world.store ≡ r
      → relay_arc machine cfg relay r w ≡ some (o, w')
      → Spares IsReleased w.world.store w'.world.store
  unfolding drive_relay
  relay_arc-Spares id (err e) w w' o g h = inl (ended_same o _ w w w' refl h)
  relay_arc-Spares id (ok arc) w w' o g h = elim (resumed-Drives relay.response arc w w' o h) [
    | inl same ↦ inl same
    | inr (spared, touches) ↦
        inr (id, arc, get-lookup machine.files id w.world.store arc g, spared, touches)
  ]

  pub relayed-Spares :
      (dry_run : Bool) (refused : Option Outcome) (args : List String) (w w' : Workspace U)
      (o : Outcome)
      → run_relayed machine cfg relay dry_run refused args w ≡ some (o, w')
      → Spares IsReleased w.world.store w'.world.store
  unfolding run_relayed
  relayed-Spares dry_run refused [] w w' o h = inl (ended_same o _ w w w' refl h)
  relayed-Spares true refused (id ∷ args) w w' o h = inl (ended_same o _ w w w' refl h)
  relayed-Spares false (some o') (id ∷ args) w w' o h = inl (ended_same o o' w w w' refl h)
  relayed-Spares false none (id ∷ args) w w' o h =
      relay_arc-Spares id (get machine.files id w.world.store) w w' o refl h
