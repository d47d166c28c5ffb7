-- ===== src/Commands/Lifecycle/Parts.antt =====
-- What the parts that `step` and `run --relay` share may have done to the store.
use mathlib.Core.Path.{subst}
use agentic_dev_harness.Shared.{
  ◌≡◌, refl, ap, ◌∙◌, ◌≢◌, inl, inr, Bool, true, List, String, Bool-cases, if◌then◌else◌, arith,
}
use agentic_dev_harness.Adh.Error.{Result, ok, err, context}
use agentic_dev_harness.Adh.Stage.{closed}
use agentic_dev_harness.Adh.Arc.{Arc}
use agentic_dev_harness.Authority.{JudgmentRoles, ModelClass, reasoning}
use agentic_dev_harness.Stages.{Prompter}
use agentic_dev_harness.Store.{Store, save}
use agentic_dev_harness.Critic.Grounding.{Inputs, Grounding, Loads, at_critic}
use agentic_dev_harness.Relay.{Relayed, awaiting, gap, advanced, emit, resume}
use agentic_dev_harness.Relay.Laws.{emit-parks, resume-advances}
use agentic_dev_harness.Commands.World.{Machine, Outcome, error}
use agentic_dev_harness.Commands.Run.{RunConfig, is_open}
use agentic_dev_harness.Commands.Relayed.{
  Workspace, RelayConfig, Part, stop, next, saved, stored, record_coverage, record_miss, after_turn,
  replied, inputs, reported, emitted, emit_with,
}
use agentic_dev_harness.Commands.Relayed.Laws.{after_turn-SameTurn, covered}
use agentic_dev_harness.Commands.Lifecycle.Touches.{Touches, Touches-refl, save-Touches}

pub open_live : {U : Type 0} (arc : Arc U) → is_open arc.status ≡ true → arc.status ≢ closed
open_live arc h e = ground arith

emitted_id :
    {U T P : Type 0} (loads : Loads P) (arc : Arc U) (in_ : Inputs U T)
    (prompter : Prompter U (Grounding U T P)) (class : ModelClass) (judgment : JudgmentRoles)
    (arc' : Arc U) (out : Relayed)
    → emit loads arc in_ prompter class judgment ≡ ok (arc', out)
    → arc'.id ≡ arc.id
emitted_id loads arc in_ prompter class judgment arc' out h =
    elim (emit-parks loads arc in_ prompter class judgment arc' out h) [
      | inl (_, _, _, e, _) ↦ ap (λ a. a.id) e
      | inr (inl (_, _, e, _)) ↦ ap (λ a. a.id) e
      | inr (inr (_, _, _, _, _, _, _, e, _)) ↦ ap (λ a. a.id) e
    ]

module _ {U T P F : Type 0} (machine : Machine) (cfg : RunConfig U (Grounding U T P) F)
    (relay : RelayConfig U T P) where
  -- An end of a command that wrote at most the arc of an id.
  abbrev pub Writes : String → Workspace U → Outcome × Workspace U → Type 0
  Writes id w end = Touches id w.world.store end.1.world.store

  -- A part of the command that wrote at most the arc of an id, and goes on with an arc of that id.
  abbrev pub Keeps : String → Store U → Part U → Type 0
  Keeps id s (stop o w) = Touches id s w.world.store
  Keeps id s (next arc w) = (arc.id ≡ id) × Touches id s w.world.store

  pub saved-Keeps :
      (name id : String) (arc : Arc U) (w : Workspace U) (s : Store U)
      → arc.id ≡ id
      → w.world.store ≡ s
      → Keeps id s (saved machine name arc w)
  saved-Keeps name id arc w s own same = split (save machine.files arc w.world.store) refl
    where
      split :
          (r : Result (Store U))
          → save machine.files arc w.world.store ≡ r
          → Keeps id s (stored machine name arc w r)
      split (err e) h = Touches-refl id s w.world.store same
      split (ok store) h = (
        own,
        subst (λ i. Touches i s store) own
            (subst (λ t. Touches arc.id t store) same
              (save-Touches machine.files arc w.world.store store h)),
      )

  reported-Keeps :
      (id : String) (s : Store U) (p : Part U)
      → Keeps id s p
      → Touches id s (reported machine cfg relay p).1.world.store
  reported-Keeps id s (stop o w) k = k
  reported-Keeps id s (next arc w) k = k.1

  -- A save at the end of a command, of an arc that kept its id.
  pub saving-Writes :
      (name : String) (arc arc' : Arc U) (w w' : Workspace U)
      → arc'.id ≡ arc.id
      → w'.world ≡ w.world
      → Writes arc.id w (reported machine cfg relay (saved machine name arc' w'))
  saving-Writes name arc arc' w w' own same =
      reported-Keeps arc.id w.world.store (saved machine name arc' w')
        (saved-Keeps name arc.id arc' w' w.world.store own (ap (λ v. v.store) same))

  pub same-Writes :
      (id : String) (w w' : Workspace U)
      → w'.world ≡ w.world
      → Touches id w.world.store w'.world.store
  same-Writes id w w' e = Touches-refl id w.world.store w'.world.store (ap (λ v. v.store) e)

  missed_world :
      (arc : Arc U) (w : Workspace U) → (record_miss relay cfg.stratum arc w).world ≡ w.world
  unfolding record_miss
  missed_world arc w = elim (Bool-cases relay.misses_written) [
    | inl e ↦ rw e refl
    | inr e ↦ rw e refl
  ]

  emitted-Writes :
      (name : String) (arc : Arc U) (w : Workspace U) (turn : Arc U × Relayed)
      → turn.0.id ≡ arc.id
      → Writes arc.id w (emitted machine cfg relay name arc w turn)
  emitted-Writes name arc w (arc', gap) own =
      same-Writes arc.id w (record_miss relay cfg.stratum arc w) (missed_world arc w)
  emitted-Writes name arc w (arc', awaiting prompt ungrounded withheld) own =
      saving-Writes name arc arc' w w own refl
  emitted-Writes name arc w (arc', advanced) own = saving-Writes name arc arc' w w own refl

  pub emit_with-Writes :
      (name : String) (with_noisy : Bool) (arc : Arc U) (w : Workspace U) (tools : Result (List T))
      → Writes arc.id w (emit_with machine cfg relay name with_noisy arc w tools)
  emit_with-Writes name with_noisy arc w (err e) = same-Writes arc.id w w refl
  emit_with-Writes name with_noisy arc w (ok tools_) =
      split
        (emit relay.loads arc (inputs machine cfg relay with_noisy arc w tools_) cfg.prompter
          reasoning cfg.judgment)
        refl
    where
      split :
          (r : Result (Arc U × Relayed))
          → emit relay.loads arc
              (inputs machine cfg relay with_noisy arc w tools_)
              cfg.prompter
              reasoning
              cfg.judgment
            ≡ r
          → Writes arc.id w (elim r [
            | err e ↦ (error (context name e), w)
            | ok turn ↦ emitted machine cfg relay name arc w turn
          ])
      split (err e) h = same-Writes arc.id w w refl
      split (ok (arc', out)) h =
          emitted-Writes name arc w (arc', out)
            (emitted_id relay.loads arc (inputs machine cfg relay with_noisy arc w tools_)
              cfg.prompter reasoning cfg.judgment arc' out h)

  pub replied-Writes :
      (name : String) (arc : Arc U) (w : Workspace U) (response : Result String)
      → Writes arc.id w (reported machine cfg relay (replied machine cfg relay name arc w response))
  replied-Writes name arc w (err e) = same-Writes arc.id w w refl
  replied-Writes name arc w (ok text) =
      split (resume relay.decoder arc text cfg.prompter cfg.judgment) refl
    where
      split :
          (r : Result (Arc U))
          → resume relay.decoder arc text cfg.prompter cfg.judgment ≡ r
          → let part : Part U = elim r [
            | err e ↦ stop (error (context name e)) w
            | ok moved ↦
                let arc' = after_turn relay arc.stage moved in
                saved machine name arc'
                  (if at_critic arc.stage then record_coverage relay arc' w else w)
          ] in
            Writes arc.id w (reported machine cfg relay part)
      split (err e) h = same-Writes arc.id w w refl
      split (ok moved) h =
          let (_, _, _, _, _, _, _, _, _, _, _, own) =
            resume-advances relay.decoder arc text cfg.prompter cfg.judgment moved h in
          let arc' = after_turn relay arc.stage moved in
          saving-Writes name arc arc' w
            (if at_critic arc.stage then record_coverage relay arc' w else w)
            ((after_turn-SameTurn machine cfg relay arc.stage moved).id_ ∙ own)
            (covered machine cfg relay (at_critic arc.stage) arc' w).world_
