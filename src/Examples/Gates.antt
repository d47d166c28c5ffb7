-- ===== src/Examples/Gates.antt =====
-- The theorems about the human gates and the life of a workspace, at the sample arc.
use agentic_dev_harness.Shared.{
  ◌≡◌, refl, ◌⊎◌, true, false, none, [], ◌∷◌, String, eq_iff, lookup, arith,
}
use agentic_dev_harness.Adh.Error.{ok}
use agentic_dev_harness.Adh.Stage.{ops, blocked, closed}
use agentic_dev_harness.Adh.Arc.{Arc}
use agentic_dev_harness.Authority.{gate_satisfied, required_approval_phrase}
use agentic_dev_harness.Store.{get, path, save}
use agentic_dev_harness.Commands.World.{World, Outcome, done}
use agentic_dev_harness.Commands.Approve.{approve}
use agentic_dev_harness.Commands.Approve.Laws.{Passes, approve_gated}
use agentic_dev_harness.Commands.Reject.{RejectConfig, reject}
use agentic_dev_harness.Commands.Reject.Laws.{Returns, reject_returns}
use agentic_dev_harness.Commands.Close.{close}
use agentic_dev_harness.Commands.Lifecycle.{
  Step, AnyStep, Reaches, approves, closes, steps, relays, start, after,
}
use agentic_dev_harness.Commands.Lifecycle.Laws.{WellFormed, Keeps, closed_final, shipped_final}
use agentic_dev_harness.Commands.Lifecycle.Effects.{IsFinished, IsReleased}
use agentic_dev_harness.Commands.Run.{report_done}
use agentic_dev_harness.Commands.Relayed.{
  Workspace, run_relayed, drive_relay, relay_loop, relay_pass,
}
use agentic_dev_harness.Commands.Step.{step}
use agentic_dev_harness.Examples.Data.{
  sample_arc, machine, world, outside, plain_close, relay_drive, relay_config, workspace,
}

abbrev waiting : World String
waiting = world (sample_arc ops blocked)

abbrev approval : Outcome × World String
approval = approve machine "arc-0001" false ("arc-0001" ∷ []) waiting

approve_gated_example :
    (approval.1 ≡ waiting)
    ⊎ ((arc : Arc String) × (get machine.files "arc-0001" waiting.store ≡ ok arc)
        × Passes machine "arc-0001" false "arc-0001" arc waiting approval.0 approval.1)
approve_gated_example =
    approve_gated machine "arc-0001" false "arc-0001" [] waiting approval.1 approval.0 refl

-- The sample arc is let through.
approving_ends : approval.0 ≡ done
unfolding approve get path lookup gate_satisfied required_approval_phrase save
approving_ends = refl

abbrev plain_reject : RejectConfig
plain_reject = record { revert = λ paths. true; reason = "too wide"; dry_run = false }

abbrev rejection : Outcome × World String
rejection = reject machine plain_reject ("arc-0001" ∷ []) waiting

reject_returns_example :
    (rejection.1 ≡ waiting)
    ⊎ ((arc : Arc String) × (back : Arc String) × (get machine.files "arc-0001" waiting.store
          ≡ ok arc)
        × Returns machine plain_reject arc back waiting rejection.0 rejection.1)
reject_returns_example =
    reject_returns machine plain_reject "arc-0001" [] waiting rejection.1 rejection.0 refl

rejecting_ends : rejection.0 ≡ done
unfolding reject get path lookup save
rejecting_ends = refl

abbrev finished_world : World String
finished_world = world (sample_arc ops closed)

abbrev after_close : Outcome × World String
after_close = close machine outside plain_close ("arc-0001" ∷ []) finished_world

abbrev after_approve : Outcome × World String
after_approve = approve machine "arc-0001" false ("arc-0001" ∷ []) after_close.1

abbrev after_step : Outcome × Workspace String
after_step =
    step machine relay_drive (relay_config none) (record { relay = true; dry_run = false }) none
      ("arc-0001" ∷ []) (record (workspace (sample_arc ops closed)) { world = after_approve.1 })

three_steps : Reaches Step finished_world after_step.1.world
three_steps =
    after
      (after (after start (closes machine outside plain_close ("arc-0001" ∷ []) after_close.0 refl))
        (approves machine "arc-0001" false ("arc-0001" ∷ []) after_approve.0 refl))
      (steps machine relay_drive (relay_config none) (record { relay = true; dry_run = false }) none
        ("arc-0001" ∷ []) (record (workspace (sample_arc ops closed)) { world = after_approve.1 })
        after_step.1 after_step.0 refl refl refl)

-- A relayed run of the closed arc ends at once.
relayed_step : Reaches AnyStep finished_world finished_world
unfolding run_relayed drive_relay relay_loop relay_pass get path lookup
relayed_step = after start (
    relays machine relay_drive (relay_config none) false none ("arc-0001" ∷ [])
      (workspace (sample_arc ops closed)) (workspace (sample_arc ops closed))
      (report_done (sample_arc ops closed)) refl refl refl)

finished-WellFormed : WellFormed finished_world.store
unfolding lookup
finished-WellFormed file arc h = ground (arith, eq_iff (path "arc-0001") file)

closed_final_example :
    WellFormed after_step.1.world.store
    × Keeps IsFinished finished_world.store after_step.1.world.store
closed_final_example = closed_final finished-WellFormed three_steps

shipped_final_example :
    WellFormed finished_world.store × Keeps IsReleased finished_world.store finished_world.store
shipped_final_example = shipped_final finished-WellFormed relayed_step
