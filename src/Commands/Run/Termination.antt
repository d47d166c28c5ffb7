-- ===== src/Commands/Run/Termination.antt =====
-- Termination of the loop of `drive`.
use mathlib.Core.Path.{subst}
use agentic_dev_harness.Shared.{
  ℕ, zero, suc, ◌+◌, ◌*◌, ◌-◌, ◌≤◌, ◌<◌, ◌≡◌, refl, ap, inl, inr, true, Option, some, arith,
}
use agentic_dev_harness.Adh.Stage.{
  Stage, strategy, execution, critic, evaluation, ops, next_stage, open_,
}
use agentic_dev_harness.Adh.Arc.{Arc}
use agentic_dev_harness.Stages.{auto_advances}
use agentic_dev_harness.Commands.World.{World, Machine, Outcome}
use agentic_dev_harness.Commands.Run.{RunConfig, Pass, stop, next, pass, drive, go_on}
use agentic_dev_harness.Commands.Run.Laws.{Advanced}
use agentic_dev_harness.Commands.Run.Passes.{Ended, pass_next, pass_stop}

-- How many stages stand before ops.
abbrev rank : Stage → ℕ
rank strategy = 4
rank execution = 3
rank critic = 2
rank evaluation = 1
rank _ = 0

module _ {U G F : Type 0} (machine : Machine) (cfg : RunConfig U G F) where
  open cfg use {level, max_reworks}

  -- How many passes may still go on: each rework left costs three stages.
  abbrev left : Arc U → ℕ
  left arc = 3 * (max_reworks - arc.reworks) + rank arc.stage

  next_rank :
      (s s' : Stage)
      → auto_advances s level ≡ true
      → ((t : Stage) → next_stage s ≡ some t → s' ≡ t)
      → suc (rank s') ≡ rank s
  unfolding auto_advances next_stage
  next_rank strategy s' on to = ap (λ s. suc (rank s)) (to execution refl)
  next_rank execution s' on to = ap (λ s. suc (rank s)) (to critic refl)
  next_rank critic s' on to = ap (λ s. suc (rank s)) (to evaluation refl)
  next_rank evaluation s' on to = ap (λ s. suc (rank s)) (to ops refl)
  next_rank ops s' on to = absurd (ground arith)
  next_rank (Stage.other s) s' on to = absurd (ground arith)

  -- A stage that leaves the arc open and goes on brings it nearer to its end.
  left_decreases :
      (arc arc' : Arc U)
      → Advanced machine cfg arc arc'
      → arc.status ≡ open_
      → arc'.status ≡ open_
      → auto_advances arc.stage level ≡ true
      → left arc' < left arc
  left_decreases arc arc' (_, inl (at, inl (to, _, more, within))) o o' on =
      let r : rank arc'.stage ≡ 3 = ap rank to in
      let r' : rank arc.stage ≡ 1 = ap rank at in omega arith
  left_decreases arc arc' (_, inl (at, inr (inl (_, fails, _)))) o o' on = absurd cc
  left_decreases arc arc' (_, inl (at, inr (inr (to, _, same)))) o o' on =
      let r : rank arc'.stage ≡ 0 = ap rank to in
      let r' : rank arc.stage ≡ 1 = ap rank at in omega arith
  left_decreases arc arc' (_, inr (_, (_, _, same, to))) o o' on =
      let r = next_rank arc.stage arc'.stage on to in omega arith

  rank_bound : (s : Stage) → rank s ≤ 4
  rank_bound strategy = omega arith
  rank_bound execution = omega arith
  rank_bound critic = omega arith
  rank_bound evaluation = omega arith
  rank_bound ops = omega arith
  rank_bound (Stage.other s) = omega arith

  Returns : Option (Outcome × World U) → (Outcome → World U → Type 0) → Type 0
  Returns r P = (o : Outcome) × (w : World U) × (r ≡ some (o, w)) × P o w

  EndsOn : ℕ → Type 0
  unfolding Returns
  EndsOn fuel =
      (arc : Arc U) (w : World U)
      → arc.status ≡ open_
      → left arc < fuel
      → Returns (drive machine cfg fuel arc w) (Ended machine cfg arc.id)

  after_pass :
      (fuel : ℕ)
      → EndsOn fuel
      → (arc : Arc U) (w : World U) (p : Pass U) → pass machine cfg arc w ≡ p
      → arc.status ≡ open_
      → left arc < suc fuel
      → Returns (go_on (drive machine cfg fuel) p) (Ended machine cfg arc.id)
  unfolding EndsOn Returns
  after_pass fuel ends arc w (stop o w') e opened enough =
      (o, w', refl, pass_stop machine cfg arc w w' o opened e)
  after_pass fuel ends arc w (next arc' w') e opened enough =
      let (_, opened', advanced, on) = pass_next machine cfg arc arc' w w' e in
      let less = left_decreases arc arc' advanced opened opened' on in
      let (o, w'', returns, ended) = ends arc' w' opened' (omega arith) in
      (o, w'', returns, subst (λ id. Ended machine cfg id o w'') advanced.0 ended)

  drive_ends : (fuel : ℕ) → EndsOn fuel
  unfolding drive EndsOn Returns
  drive_ends zero arc w opened enough = absurd (omega arith)
  drive_ends (suc fuel) arc w opened enough =
      after_pass fuel (drive_ends fuel) arc w (pass machine cfg arc w) refl opened enough

  -- With fuel for three passes for each rework of the budget and five more, the drive of an open
  -- arc ends: in an error, or with the arc stored as blocked and nothing to report, or with the arc
  -- stored as failed and exit code 1.
  pub drive_parks :
      (arc : Arc U) (w : World U)
      → arc.status ≡ open_
      → (o : Outcome) × (w' : World U) × (drive machine cfg (3 * max_reworks + 5) arc w
          ≡ some (o, w'))
        × Ended machine cfg arc.id o w'
  unfolding Returns EndsOn
  drive_parks arc w opened =
      let bound = rank_bound arc.stage in
      drive_ends (3 * max_reworks + 5) arc w opened (omega arith)
