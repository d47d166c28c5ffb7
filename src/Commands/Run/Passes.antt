-- ===== src/Commands/Run/Passes.antt =====
-- The two ways out of a pass of the loop of `drive`: on to the next pass, or out of the command.
use mathlib.Core.Path.{subst}
use agentic_dev_harness.Shared.{
  ◌≡◌, refl, sym, ap, ◌≢◌, ◌∙◌, ◌⊎◌, inl, inr, true, some, eq_iff, String, Bool-cases, lookup,
  arith,
}
use agentic_dev_harness.Adh.Error.{Error, Result, ok, err, context}
use agentic_dev_harness.Adh.Stage.{
  Stage, strategy, execution, critic, evaluation, ops, Status, open_, blocked, failed,
}
use agentic_dev_harness.Adh.Arc.{Arc}
use agentic_dev_harness.Stages.{auto_advances}
use agentic_dev_harness.Store.{Store, path, save}
use agentic_dev_harness.Store.Laws.{lookup-save}
use agentic_dev_harness.Commands.World.{
  World, Machine, Outcome, done, error, exit, finished, saving_inv,
}
use agentic_dev_harness.Commands.Run.{
  RunConfig, stop, next, is_open, blocked_with, block, stopped, gate_message, ops_message,
  advance_stage, settle, after_save, after_stage, pass_at, pass, report_done,
}
use agentic_dev_harness.Commands.Run.Laws.{Advanced, advance_stage-Advanced}

module _ {U G F : Type 0} (machine : Machine) (cfg : RunConfig U G F) where
  saved_arc :
      (arc : Arc U) (store store' : Store U)
      → save machine.files arc store ≡ ok store'
      → lookup (path arc.id) store' ≡ some arc
  saved_arc arc store store' h =
      rw
        (
          lookup-save machine.files arc store store' (path arc.id) h,
          (eq_iff (path arc.id) (path arc.id)).1 refl,
        )
        refl

  -- How the command ends for an arc that was open: in an error, or with the arc stored as blocked
  -- and nothing to report, or as failed and exit code 1.
  abbrev pub Ended : String → Outcome → World U → Type 0
  Ended id o w =
      ((e : Error) × (o ≡ error e))
      ⊎ ((arc : Arc U) × (lookup (path id) w.store ≡ some arc)
          × (((o ≡ done) × (arc.status ≡ blocked)) ⊎ ((o ≡ exit 1) × (arc.status ≡ failed))))

  block_stop :
      (message : String) (arc : Arc U) (w w' : World U) (o : Outcome)
      → stopped (block machine cfg message arc w) ≡ stop o w'
      → Ended arc.id o w'
  block_stop message arc w w' o h =
      let arc' = blocked_with machine cfg message arc in
      elim (saving_inv machine "run" arc' (finished machine) w w' o (ground arith)) [
        | inl (e, ends, _) ↦ inl (e, ends)
        | inr (store, saved, h') ↦ inr (
          arc',
          subst (λ s. lookup (path arc.id) s ≡ some arc') (ap (λ p. p.1.store) h')
              (saved_arc arc' w.store store saved),
          inl (sym (ap (λ p. p.0) h'), refl),
        )
      ]

  settle_stop :
      (from : Stage) (arc : Arc U) (w w' : World U) (o : Outcome)
      → lookup (path arc.id) w.store ≡ some arc
      → ((arc.status ≡ open_) ⊎ (arc.status ≡ failed))
      → settle machine cfg from arc w ≡ stop o w'
      → Ended arc.id o w'
  unfolding settle report_done
  settle_stop from arc w w' o held (inr e) h =
      let same : w ≡ w' = ground arith in
      inr (
        arc,
        subst (λ (v : World U). lookup (path arc.id) v.store ≡ some arc) same held,
        inr (ground arith, e),
      )
  settle_stop from arc w w' o held (inl e) h = elim (Bool-cases (auto_advances from cfg.level)) [
    | inl on ↦ absurd (ground arith)
    | inr off ↦ block_stop (gate_message arc.stage) arc w w' o (ground arith)
  ]

  settle_next :
      (from : Stage) (arc arc' : Arc U) (w w' : World U)
      → settle machine cfg from arc w ≡ next arc' w'
      → (arc' ≡ arc) × (arc.status ≡ open_) × (auto_advances from cfg.level ≡ true)
  unfolding settle
  settle_next from arc arc' w w' h = ground arith

  after_stage_next :
      (from : Stage) (r : Result (Arc U) × World U) (arc' : Arc U) (w' : World U)
      → after_stage machine cfg from r ≡ next arc' w'
      → (r.0 ≡ ok arc') × (arc'.status ≡ open_) × (auto_advances from cfg.level ≡ true)
  after_stage_next from (err e, w) arc' w' h = absurd (ground arith)
  after_stage_next from (ok a, w) arc' w' h = saved (save machine.files a w.store) h
    where
      saved :
          (s : Result (Store U))
          → after_save machine cfg from a w s ≡ next arc' w'
          → (◌≡◌ {A = Result (Arc U)} (ok a) (ok arc'))
            × (arc'.status ≡ open_)
            × (auto_advances from cfg.level ≡ true)
      saved (err e) h = absurd (ground arith)
      saved (ok store) h =
          let (same, opened, on) = settle_next from a arc' (record w { store = store }) w' h in
          (ap ok (sym same), ap (λ (x : Arc U). x.status) same ∙ opened, on)

  after_stage_stop :
      (from : Stage) (id : String) (r : Result (Arc U) × World U) (w' : World U) (o : Outcome)
      → ((a : Arc U) → r.0 ≡ ok a → (a.id ≡ id) × ((a.status ≡ open_) ⊎ (a.status ≡ failed)))
      → after_stage machine cfg from r ≡ stop o w'
      → Ended id o w'
  after_stage_stop from id (err e, w) w' o moved h = inl (e, ground arith)
  after_stage_stop from id (ok a, w) w' o moved h = saved (save machine.files a w.store) refl h
    where
      saved :
          (s : Result (Store U))
          → save machine.files a w.store ≡ s
          → after_save machine cfg from a w s ≡ stop o w'
          → Ended id o w'
      saved (err e) _ h = inl (context "run" e, ground arith)
      saved (ok store) e h =
          let (same, status) = moved a refl in
          subst (λ i. Ended i o w') same
            (settle_stop from a (record w { store = store }) w' o (saved_arc a w.store store e)
              status h)

  pub pass_at_cases :
      (s : Stage) (arc : Arc U) (w : World U)
      → (pass_at machine cfg s arc w ≡ stopped (block machine cfg ops_message arc w))
        ⊎ (pass_at machine cfg s arc w
            ≡ after_stage machine cfg s (advance_stage machine cfg arc w))
  pass_at_cases ops arc w = inl refl
  pass_at_cases strategy arc w = inr refl
  pass_at_cases execution arc w = inr refl
  pass_at_cases critic arc w = inr refl
  pass_at_cases evaluation arc w = inr refl
  pass_at_cases (Stage.other s) arc w = inr refl

  stopped_not_next :
      (r : Outcome × World U) (arc' : Arc U) (w' : World U) → stopped r ≢ next arc' w'
  stopped_not_next r arc' w' h = ground arith

  pub advanced :
      (arc a : Arc U) (w : World U)
      → (advance_stage machine cfg arc w).0 ≡ ok a
      → Advanced machine cfg arc a
  advanced arc a w h =
      let r = advance_stage machine cfg arc w in
      (advance_stage-Advanced machine cfg arc a w r.1 (ap (λ x. (x, r.1)) h)).1

  status_after :
      (arc a : Arc U)
      → arc.status ≡ open_
      → Advanced machine cfg arc a
      → (a.id ≡ arc.id) × ((a.status ≡ open_) ⊎ (a.status ≡ failed))
  status_after arc a opened (id, inl (_, inl (_, same, _, _))) = (id, inl (same ∙ opened))
  status_after arc a opened (id, inl (_, inr (inl (_, fails, _)))) = (id, inr fails)
  status_after arc a opened (id, inl (_, inr (inr (_, same, _)))) = (id, inl (same ∙ opened))
  status_after arc a opened (id, inr (_, (_, same, _, _))) = (id, inl (same ∙ opened))

  is_open_iff : (s : Status) → is_open s ≡ true → s ≡ open_
  is_open_iff s h = ground arith

  -- A pass that goes on ran one stage of an open arc, which the autonomy level let the relay leave,
  -- and left the arc open.
  pub pass_next :
      (arc arc' : Arc U) (w w' : World U)
      → pass machine cfg arc w ≡ next arc' w'
      → (arc.status ≡ open_)
        × (arc'.status ≡ open_)
        × Advanced machine cfg arc arc'
        × (auto_advances arc.stage cfg.level ≡ true)
  unfolding pass
  pass_next arc arc' w w' h = elim (Bool-cases (is_open arc.status)) [
    | inr e ↦ absurd (ground arith)
    | inl e ↦ elim (pass_at_cases arc.stage arc w) [
      | inl at ↦
          absurd
            (stopped_not_next (block machine cfg ops_message arc w) arc' w' (sym at ∙ ground arith))
      | inr at ↦
          let (r, opened, on) =
            after_stage_next arc.stage (advance_stage machine cfg arc w) arc' w'
              (sym at ∙ ground arith) in
          (is_open_iff arc.status e, opened, advanced arc arc' w r, on)
    ]
  ]

  -- A pass over an open arc that ends the command ends it as `Ended` says.
  pub pass_stop :
      (arc : Arc U) (w w' : World U) (o : Outcome)
      → arc.status ≡ open_
      → pass machine cfg arc w ≡ stop o w'
      → Ended arc.id o w'
  unfolding pass
  pass_stop arc w w' o opened h = elim (pass_at_cases arc.stage arc w) [
    | inl at ↦ block_stop ops_message arc w w' o (sym at ∙ ground arith)
    | inr at ↦
        after_stage_stop arc.stage arc.id (advance_stage machine cfg arc w) w' o
          (λ a r. status_after arc a opened (advanced arc a w r)) (sym at ∙ ground arith)
  ]
