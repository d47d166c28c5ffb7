-- ===== src/Commands/Lifecycle/Drive.antt =====
-- What the drive of `run` may have done to the store.
use mathlib.Core.Path.{subst}
use agentic_dev_harness.Shared.{
  ℕ, zero, suc, ◌≡◌, refl, sym, ap, ◌≢◌, ◌⊎◌, inl, inr, Bool, true, false, Option, none, some, List,
  [], ◌∷◌, String, Bool-cases, arith,
}
use agentic_dev_harness.Adh.Error.{Result, ok, err}
use agentic_dev_harness.Adh.Stage.{
  Stage, strategy, execution, critic, evaluation, ops, Status, open_, blocked, closed, failed,
}
use agentic_dev_harness.Adh.Arc.{Arc}
use agentic_dev_harness.Stages.{auto_advances}
use agentic_dev_harness.Critic.Disposition.{Verdict}
use agentic_dev_harness.Store.{Store, get, save}
use agentic_dev_harness.Commands.World.{World, Machine, Outcome}
use agentic_dev_harness.Commands.Run.{
  RunConfig, Pass, stop, next, is_open, blocked_with, block, stopped, gate_message, ops_message,
  with_verdict, named, adjudicate_stage, advance_at, advance_stage, settle, after_save, after_stage,
  pass_at, pass, drive, go_on, enough, run_arc, run,
}
use agentic_dev_harness.Commands.Run.Passes.{pass_next, pass_at_cases, advanced}
use agentic_dev_harness.Commands.Lifecycle.Touches.{
  Touches, Touches-refl, Touches-trans, save-Touches, get-lookup,
}
use agentic_dev_harness.Commands.Lifecycle.Effects.{Effect, same_store, saving-Touches}

-- The world behind a pass.
abbrev behind : {U : Type 0} → Pass U → World U
behind (stop o w) = w
behind (next arc w) = w

closed? : (s : Status) → (s ≡ closed) ⊎ (s ≢ closed)
closed? closed = inl refl
closed? open_ = inr (λ e. cc)
closed? blocked = inr (λ e. cc)
closed? failed = inr (λ e. cc)
closed? (Status.other s) = inr (λ e. cc)

module _ {U G F : Type 0} (machine : Machine) (cfg : RunConfig U G F) where
  block-Touches :
      (message : String) (arc : Arc U) (w : World U)
      → Touches arc.id w.store (behind (stopped (block machine cfg message arc w))).store
  block-Touches message arc w =
      let r = block machine cfg message arc w in
      saving-Touches machine "run" (blocked_with machine cfg message arc) w r.1 r.0 refl

  settle-Touches :
      (from : Stage) (arc : Arc U) (w : World U)
      → Touches arc.id w.store (behind (settle machine cfg from arc w)).store
  unfolding settle
  settle-Touches from arc w = elim (Bool-cases (is_open arc.status)) [
    | inr e ↦ rw e (Touches-refl arc.id w.store w.store refl)
    | inl e ↦ elim (Bool-cases (auto_advances from cfg.level)) [
      | inl on ↦ rw (e, on) (Touches-refl arc.id w.store w.store refl)
      | inr off ↦ rw (e, off) (block-Touches (gate_message arc.stage) arc w)
    ]
  ]

  after_stage-Touches :
      (from : Stage) (id : String) (s : Store U) (r : Result (Arc U) × World U)
      → r.1.store ≡ s
      → ((a : Arc U) → r.0 ≡ ok a → a.id ≡ id)
      → Touches id s (behind (after_stage machine cfg from r)).store
  after_stage-Touches from id s (err e, w) same own = Touches-refl id s w.store same
  after_stage-Touches from id s (ok a, w) same own = saved (save machine.files a w.store) refl
    where
      saved :
          (r : Result (Store U))
          → save machine.files a w.store ≡ r
          → Touches id s (behind (after_save machine cfg from a w r)).store
      saved (err e) h = Touches-refl id s w.store same
      saved (ok store) h =
          let w' : World U = record w { store = store } in
          let all =
            Touches-trans a.id w.store store (behind (settle machine cfg from a w')).store
              (save-Touches machine.files a w.store store h) (settle-Touches from a w') in
          subst (λ i. Touches i s (behind (settle machine cfg from a w')).store) (own a refl)
            (subst (λ t. Touches a.id t (behind (settle machine cfg from a w')).store) same all)

  verdict_store :
      (r : Result Verdict) (arc : Arc U) (w : World U)
      → (named machine cfg (with_verdict machine cfg r arc w)).1.store ≡ w.store
  verdict_store (err e) arc w = refl
  verdict_store (ok v) arc w = refl

  pub adjudicate_store :
      (arc : Arc U) (w : World U) → (adjudicate_stage machine cfg arc w).1.store ≡ w.store
  unfolding adjudicate_stage
  adjudicate_store arc w = verdict_store _ arc w

  -- Running a stage writes the logs at most.
  advance_store : (arc : Arc U) (w : World U) → (advance_stage machine cfg arc w).1.store ≡ w.store
  unfolding advance_stage
  advance_store arc w = at arc.stage
    where
      at : (s : Stage) → (advance_at machine cfg s arc w).1.store ≡ w.store
      at evaluation = adjudicate_store arc w
      at strategy = refl
      at execution = refl
      at critic = refl
      at ops = refl
      at (Stage.other s) = refl

  pass_at-Touches :
      (arc : Arc U) (w : World U)
      → Touches arc.id w.store (behind (pass_at machine cfg arc.stage arc w)).store
  pass_at-Touches arc w =
      let via : Pass U → Type 0 = λ p. Touches arc.id w.store (behind p).store in
      elim (pass_at_cases machine cfg arc.stage arc w) [
        | inl e ↦ subst via (sym e) (block-Touches ops_message arc w)
        | inr e ↦ subst via (sym e) (
            after_stage-Touches arc.stage arc.id w.store (advance_stage machine cfg arc w)
              (advance_store arc w) (λ a h. (advanced machine cfg arc a w h).0))
      ]

  pass-Touches :
      (arc : Arc U) (w : World U) → Touches arc.id w.store (behind (pass machine cfg arc w)).store
  unfolding pass
  pass-Touches arc w = elim (Bool-cases (is_open arc.status)) [
    | inr e ↦ rw e (Touches-refl arc.id w.store w.store refl)
    | inl e ↦ rw e (pass_at-Touches arc w)
  ]

  TouchedBy : ℕ → Type 0
  TouchedBy fuel =
      (arc : Arc U) (w w' : World U) (o : Outcome)
      → drive machine cfg fuel arc w ≡ some (o, w')
      → Touches arc.id w.store w'.store

  go_on-Touches :
      (fuel : ℕ)
      → TouchedBy fuel
      → (arc : Arc U) (w w' : World U) (o : Outcome) (p : Pass U) → pass machine cfg arc w ≡ p
      → go_on (drive machine cfg fuel) p ≡ some (o, w')
      → Touches arc.id w.store w'.store
  unfolding TouchedBy
  go_on-Touches fuel loop arc w w' o (stop o' v) e h =
      let first : Touches arc.id w.store v.store =
        subst (λ p. Touches arc.id w.store (behind p).store) e (pass-Touches arc w) in
      let same : v ≡ w' = ground arith in
      subst (λ (x : World U). Touches arc.id w.store x.store) same first
  go_on-Touches fuel loop arc w w' o (next arc' v) e h =
      let first : Touches arc.id w.store v.store =
        subst (λ p. Touches arc.id w.store (behind p).store) e (pass-Touches arc w) in
      let (_, _, moved, _) = pass_next machine cfg arc arc' w v e in
      let later : Touches arc.id v.store w'.store =
        subst (λ i. Touches i v.store w'.store) moved.0 (loop arc' v w' o h) in
      Touches-trans arc.id w.store v.store w'.store first later

  drive-Touches : (fuel : ℕ) → TouchedBy fuel
  unfolding drive TouchedBy
  drive-Touches zero arc w w' o h = absurd (ground arith)
  drive-Touches (suc fuel) arc w w' o h =
      go_on-Touches fuel (drive-Touches fuel) arc w w' o (pass machine cfg arc w) refl h

  -- A closed arc is not driven at all.
  drive_closed :
      (fuel : ℕ) (arc : Arc U) (w w' : World U) (o : Outcome)
      → arc.status ≡ closed
      → drive machine cfg fuel arc w ≡ some (o, w')
      → w' ≡ w
  unfolding drive pass
  drive_closed zero arc w w' o c h = absurd (ground arith)
  drive_closed (suc fuel) arc w w' o c h = ground (arith, c)

  run_arc-Effect :
      (id : String) (r : Result (Arc U)) (w w' : World U) (o : Outcome)
      → get machine.files id w.store ≡ r
      → run_arc machine cfg r w ≡ some (o, w')
      → Effect w.store w'.store
  unfolding TouchedBy
  run_arc-Effect id (err e) w w' o e' h = inl (same_store w w' (ground arith))
  run_arc-Effect id (ok arc) w w' o e h = elim (closed? arc.status) [
    | inl c ↦ inl (ap (λ (v : World U). v.store) (drive_closed (enough machine cfg) arc w w' o c h))
    | inr live ↦ inr (
      id,
      arc,
      get-lookup machine.files id w.store arc e,
      live,
      drive-Touches (enough machine cfg) arc w w' o h,
    )
  ]

  pub run-Effect :
      (dry_run : Bool) (refused : Option Outcome) (args : List String) (w w' : World U)
      (o : Outcome)
      → run machine cfg dry_run refused args w ≡ some (o, w')
      → Effect w.store w'.store
  unfolding run
  run-Effect dry_run refused [] w w' o h = inl (same_store w w' (ground arith))
  run-Effect true refused (id ∷ args) w w' o h = inl (same_store w w' (ground arith))
  run-Effect false (some o') (id ∷ args) w w' o h = inl (same_store w w' (ground arith))
  run-Effect false none (id ∷ args) w w' o h =
      run_arc-Effect id (get machine.files id w.store) w w' o refl h
