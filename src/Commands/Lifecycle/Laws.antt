-- ===== src/Commands/Lifecycle/Laws.antt =====
-- Invariants of the store under any sequence of commands.
use mathlib.Core.Path.{subst}
use agentic_dev_harness.Shared.{◌≡◌, sym, ap, ◌∙◌, inl, inr, some, String, lookup}
use agentic_dev_harness.Adh.Arc.{Arc}
use agentic_dev_harness.Store.{Store, path}
use agentic_dev_harness.Commands.World.{World}
use agentic_dev_harness.Commands.Lifecycle.{
  Step, Reaches, AnyStep, approves, rejects, closes, runs, steps, by_step, relays, start, after,
}
use agentic_dev_harness.Commands.Lifecycle.Effects.{
  Effect, Spares, IsFinished, IsReleased, Effect-IsReleased, approve-Effect, reject-Effect,
  close-Effect,
}
use agentic_dev_harness.Commands.Lifecycle.Drive.{run-Effect}
use agentic_dev_harness.Commands.Lifecycle.Stepping.{step-Effect}
use agentic_dev_harness.Commands.Lifecycle.Relaying.{relayed-Spares}

module _ {U : Type 0} where
  -- Every arc stands in the file of its own id.
  abbrev pub WellFormed : Store U → Type 0
  WellFormed s = (file : String) (arc : Arc U) → lookup file s ≡ some arc → path arc.id ≡ file

  -- The arcs of a kind in one store stand unchanged in the other.
  abbrev pub Keeps : (Arc U → Type 0) → Store U → Store U → Type 0
  Keeps Kind s s' =
      (file : String) (arc : Arc U)
      → lookup file s ≡ some arc
      → Kind arc
      → lookup file s' ≡ some arc

  module _ (Kind : Arc U → Type 0) where
    Spares-WellFormed : (s s' : Store U) → WellFormed s → Spares Kind s s' → WellFormed s'
    Spares-WellFormed s s' wf (inl e) j a h = wf j a (sym (ap (lookup j) e) ∙ h)
    Spares-WellFormed s s' wf (inr (id, arc, held, spared, touches)) j a h = elim (touches j) [
      | inl same ↦ wf j a (sym same ∙ h)
      | inr (b, held', own, at) ↦
          let e : b ≡ a = cc in sym (ap (λ (x : Arc U). path x.id) e) ∙ ap path own ∙ at
    ]

    Spares-Keeps : (s s' : Store U) → WellFormed s → Spares Kind s s' → Keeps Kind s s'
    Spares-Keeps s s' wf (inl e) j a h c = ap (lookup j) e ∙ h
    Spares-Keeps s s' wf (inr (id, arc, held, spared, touches)) j a h c = elim (touches j) [
      | inl same ↦ same ∙ h
      | inr (b, held', own, at) ↦
          let here : path id ≡ j = sym (wf (path id) arc held) ∙ at in
          let e : arc ≡ a = cc (held, here, h) in absurd (spared (subst Kind (sym e) c))
    ]

    Reaches-Keeps :
        (R : World U → World U → Type 1)
        → ((w w' : World U) → R w w' → Spares Kind w.store w'.store)
        → (w w' : World U) → WellFormed w.store
        → Reaches R w w'
        → WellFormed w'.store × Keeps Kind w.store w'.store
    Reaches-Keeps R spares w w' wf start = (wf, λ id arc h c. h)
    Reaches-Keeps R spares w w' wf (after {middle} r s) =
        let (wf', keeps) = Reaches-Keeps R spares w middle wf r in
        let effect = spares middle w' s in
        (
          Spares-WellFormed middle.store w'.store wf' effect,
          λ id arc h c. Spares-Keeps middle.store w'.store wf' effect id arc (keeps id arc h c) c,
        )

  Step-Effect : {w w' : World U} → Step w w' → Effect w.store w'.store
  Step-Effect {w} {w'} (approves machine phrase dry_run args o h) =
      approve-Effect machine phrase dry_run args w w' o h
  Step-Effect {w} {w'} (rejects machine cfg args o h) = reject-Effect machine cfg args w w' o h
  Step-Effect {w} {w'} (closes machine outside cfg args o h) =
      close-Effect machine outside cfg args w w' o h
  Step-Effect {w} {w'} (runs machine cfg dry_run refused args o h) =
      run-Effect machine cfg dry_run refused args w w' o h
  Step-Effect {w} {w'} (steps machine cfg relay flags refused args v v' o h e e') =
      subst (λ (x : World U). Effect x.store w'.store) e
        (subst (λ (x : World U). Effect v.world.store x.store) e'
          (step-Effect machine cfg relay flags refused args v v' o h))

  AnyStep-Spares : {w w' : World U} → AnyStep w w' → Spares IsReleased w.store w'.store
  AnyStep-Spares {w} {w'} (by_step s) = Effect-IsReleased w.store w'.store (Step-Effect s)
  AnyStep-Spares {w} {w'} (relays machine cfg relay dry_run refused args v v' o h e e') =
      subst (λ (x : World U). Spares IsReleased x.store w'.store) e
        (subst (λ (x : World U). Spares IsReleased v.world.store x.store) e'
          (relayed-Spares machine cfg relay dry_run refused args v v' o h))

  -- Closing is final: from a workspace in which every arc stands in the file of its own id, any sequence of
  -- approve, reject, close, run and step commands leads to one in which this holds as well and in
  -- which every arc that was closed stands unchanged.
  pub closed_final :
      {w w' : World U}
      → WellFormed w.store
      → Reaches Step w w'
      → WellFormed w'.store × Keeps IsFinished w.store w'.store
  closed_final {w} {w'} wf r = Reaches-Keeps IsFinished Step (λ v v' s. Step-Effect s) w w' wf r

  -- With `run --relay` among the commands, too, every arc stays in the file of its own id, and every arc that
  -- was shipped, which is to say closed at ops, stands unchanged.
  pub shipped_final :
      {w w' : World U}
      → WellFormed w.store
      → Reaches AnyStep w w'
      → WellFormed w'.store × Keeps IsReleased w.store w'.store
  shipped_final {w} {w'} wf r =
      Reaches-Keeps IsReleased AnyStep (λ v v' s. AnyStep-Spares s) w w' wf r
