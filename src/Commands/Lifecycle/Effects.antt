-- ===== src/Commands/Lifecycle/Effects.antt =====
-- What each command may have done to the store.
use mathlib.Core.Path.{subst}
use agentic_dev_harness.Shared.{
  ◌≡◌, refl, ap, ◌∙◌, ◌≢◌, ◌⊎◌, inl, inr, Bool, true, Option, none, some, List, [], ◌∷◌, String,
  Bool-cases, lookup, arith,
}
use agentic_dev_harness.Adh.Stage.{
  Status, closed, ops, Resolution, change, investigation, experiment, decision,
}
use agentic_dev_harness.Adh.Arc.{Arc}
use agentic_dev_harness.Authority.{gate_satisfied, required_approval_phrase}
use agentic_dev_harness.Store.{path, Store}
use agentic_dev_harness.Commands.World.{
  World, Machine, Outcome, Command, finished, saving, with_arc, saving_inv, with_arc_inv,
}
use agentic_dev_harness.Commands.Approve.{is_blocked, approved, approve, at_gate as approve_at}
use agentic_dev_harness.Commands.Reject.{
  RejectConfig, rejected, return_arc, reject, at_gate as reject_at,
}
use agentic_dev_harness.Commands.Close.{
  Outside, CloseConfig, close, shipped, ship, ship_as, with_commit, apply_resolution, passed,
}
use agentic_dev_harness.Commands.Close.Laws.{close_proven}
use agentic_dev_harness.Commands.Lifecycle.Touches.{Touches, Touches-refl, save-Touches, get-lookup}

blocked_open : (s : Status) → is_blocked s ≡ true → s ≢ closed
blocked_open s h e = ground arith

module _ {U : Type 0} where
  -- A command's effect on a store: none, or on the entry of one arc that was stored, and is none of
  -- a kind.
  abbrev pub Spares : (Arc U → Type 0) → Store U → Store U → Type 0
  Spares Kind s s' =
      (s' ≡ s)
      ⊎ ((id : String) × (arc : Arc U) × (lookup (path id) s ≡ some arc)
          × (Kind arc → ⊥)
          × Touches arc.id s s')

  abbrev pub IsFinished : Arc U → Type 0
  IsFinished arc = arc.status ≡ closed

  -- An arc as `close` leaves it.
  abbrev pub IsReleased : Arc U → Type 0
  IsReleased arc = (arc.status ≡ closed) × (arc.stage ≡ ops)

  abbrev pub Effect : Store U → Store U → Type 0
  Effect s s' = Spares IsFinished s s'

  pub Effect-IsReleased : (s s' : Store U) → Effect s s' → Spares IsReleased s s'
  Effect-IsReleased s s' (inl e) = inl e
  Effect-IsReleased s s' (inr (id, arc, held, live, touches)) =
      inr (id, arc, held, λ h. live h.0, touches)

  pub same_store : (w w' : World U) → w' ≡ w → w'.store ≡ w.store
  same_store w w' e = ap (λ (v : World U). v.store) e

  -- A save of an arc of the given id, as the last thing that a command does.
  pub saving-Touches :
      (machine : Machine) (name : String) (arc : Arc U) (w w' : World U) (o : Outcome)
      → saving machine name arc (finished machine) w ≡ (o, w')
      → Touches arc.id w.store w'.store
  saving-Touches machine name arc w w' o h =
      elim (saving_inv machine name arc (finished machine) w w' o h) [
        | inl (_, _, same) ↦ Touches-refl arc.id w.store w'.store (same_store w w' same)
        | inr (store, saved, h') ↦
            subst (λ s. Touches arc.id w.store s) (ap (λ p. p.1.store) h')
              (save-Touches machine.files arc w.store store saved)
      ]

  approve_at-Touches :
      (machine : Machine) (phrase : String) (dry_run : Bool) (id : String) (arc : Arc U)
      (w w' : World U) (o : Outcome)
      → approve_at machine phrase dry_run id arc w ≡ (o, w')
      → (w'.store ≡ w.store) ⊎ ((arc.status ≢ closed) × Touches arc.id w.store w'.store)
  approve_at-Touches machine phrase dry_run id arc w w' o h =
      elim (Bool-cases (is_blocked arc.status)) [
        | inr e ↦ inl (same_store w w' (ground arith))
        | inl e ↦ elim (Bool-cases (gate_satisfied (required_approval_phrase id) phrase dry_run)) [
          | inr g ↦ inl (same_store w w' (ground arith))
          | inl g ↦ inr (
            blocked_open arc.status e,
            saving-Touches machine "approve" (approved machine phrase dry_run arc) w w' o
                (ground arith),
          )
        ]
      ]

  reject_at-Touches :
      (machine : Machine) (cfg : RejectConfig) (id : String) (arc : Arc U) (w w' : World U)
      (o : Outcome)
      → reject_at machine cfg id arc w ≡ (o, w')
      → (w'.store ≡ w.store) ⊎ ((arc.status ≢ closed) × Touches arc.id w.store w'.store)
  unfolding return_arc
  reject_at-Touches machine cfg id arc w w' o h = elim (Bool-cases (is_blocked arc.status)) [
    | inr e ↦ inl (same_store w w' (ground arith))
    | inl e ↦ elim (Bool-cases cfg.dry_run) [
      | inl d ↦ inl (same_store w w' (ground arith))
      | inr d ↦ inr (
        blocked_open arc.status e,
        saving-Touches machine "reject" (rejected machine cfg arc) w w' o (ground arith),
      )
    ]
  ]

  -- A command that reads an arc, and then touches at most it.
  pub reading-Effect :
      (machine : Machine) (name id : String) (k : Arc U → Command U) (w w' : World U) (o : Outcome)
      → ((arc : Arc U)
          → k arc w ≡ (o, w')
          → (w'.store ≡ w.store) ⊎ ((arc.status ≢ closed) × Touches arc.id w.store w'.store))
      → with_arc machine name id k w ≡ (o, w')
      → Effect w.store w'.store
  reading-Effect machine name id k w w' o each h = elim (with_arc_inv machine name id k w w' o h) [
    | inl same ↦ inl (same_store w w' same)
    | inr (arc, held, h') ↦ elim (each arc h') [
      | inl same ↦ inl same
      | inr (live, touches) ↦
          inr (id, arc, get-lookup machine.files id w.store arc held, live, touches)
    ]
  ]

  pub approve-Effect :
      (machine : Machine) (phrase : String) (dry_run : Bool) (args : List String) (w w' : World U)
      (o : Outcome)
      → approve machine phrase dry_run args w ≡ (o, w')
      → Effect w.store w'.store
  unfolding approve
  approve-Effect machine phrase dry_run [] w w' o h = inl (same_store w w' (ground arith))
  approve-Effect machine phrase dry_run (id ∷ args) w w' o h =
      reading-Effect machine "approve" id (approve_at machine phrase dry_run id) w w' o
        (λ arc. approve_at-Touches machine phrase dry_run id arc w w' o) h

  pub reject-Effect :
      (machine : Machine) (cfg : RejectConfig) (args : List String) (w w' : World U) (o : Outcome)
      → reject machine cfg args w ≡ (o, w')
      → Effect w.store w'.store
  unfolding reject
  reject-Effect machine cfg [] w w' o h = inl (same_store w w' (ground arith))
  reject-Effect machine cfg (id ∷ args) w w' o h =
      reading-Effect machine "reject" id (reject_at machine cfg id) w w' o
        (λ arc. reject_at-Touches machine cfg id arc w w' o) h

  shipped_id : (outside : Outside U) (arc : Arc U) → (shipped outside arc).id ≡ arc.id
  unfolding shipped ship
  shipped_id outside arc = at arc.resolution
    where
      committed : (c : Option (String × String)) → (with_commit c arc).id ≡ arc.id
      committed none = refl
      committed (some (hash, branch)) = refl

      at : (r : Resolution) → (ship_as r outside arc).id ≡ arc.id
      at change = committed (outside.commit arc)
      at Resolution.unset = refl
      at investigation = refl
      at experiment = refl
      at decision = refl
      at (Resolution.other s) = refl

  resolved_id :
      (machine : Machine) (outside : Outside U) (cfg : CloseConfig) (arc resolved : Arc U)
      → apply_resolution machine outside cfg arc ≡ passed resolved
      → resolved.id ≡ arc.id
  unfolding apply_resolution
  resolved_id machine outside cfg arc resolved h = ground arith

  pub close-Effect :
      (machine : Machine) (outside : Outside U) (cfg : CloseConfig) (args : List String)
      (w w' : World U) (o : Outcome)
      → close machine outside cfg args w ≡ (o, w')
      → Effect w.store w'.store
  unfolding close
  close-Effect machine outside cfg [] w w' o h = inl (same_store w w' (ground arith))
  close-Effect machine outside cfg (id ∷ args) w w' o h =
      elim (close_proven machine outside cfg id args w w' o h) [
        | inl same ↦ inl (same_store w w' same)
        | inr (arc, resolved, held, (_, is_open, resolves, _, _, _), _, _, saved) ↦
            let e =
              shipped_id outside resolved ∙ resolved_id machine outside cfg arc resolved resolves in
            inr (
              id,
              arc,
              get-lookup machine.files id w.store arc held,
              λ c. cc,
              subst (λ i. Touches i w.store w'.store) e
                  (save-Touches machine.files (shipped outside resolved) w.store w'.store saved),
            )
      ]
