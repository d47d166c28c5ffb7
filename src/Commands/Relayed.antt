-- ===== src/Commands/Relayed.antt =====
-- cmd/run/run.go with `--relay`: a reply is applied to the parked turn, Evaluation runs by itself,
-- and the prompt of the next model stage is parked. Two more logs belong to the workspace here, of
-- the critics' coverage and of routing misses; a write to them that fails is passed over. The loop
-- runs on fuel; `none` is a loop that used it up.
pub mod Laws
use agentic_dev_harness.Shared.{
  ℕ, zero, suc, Bool, true, false, not, Option, none, some, List, [], ◌∷◌, ◌++◌, map, String, ◌==◌,
  if◌then◌else◌, concat, ◌&&◌, is_empty,
}
use agentic_dev_harness.Adh.Error.{Error, Result, ok, err, ◌>>=◌, context, coded, conflict}
use agentic_dev_harness.Adh.Stage.{
  Stage, strategy, execution, critic, evaluation, ops, stage_text, same_stage, Resolution,
}
use agentic_dev_harness.Adh.Finding.{finding_kinds, kind_text}
use agentic_dev_harness.Adh.Arc.{Arc, Pending}
use agentic_dev_harness.Authority.{reasoning}
use agentic_dev_harness.Store.{Store, get, save}
use agentic_dev_harness.Context.Improve.{Miss}
use agentic_dev_harness.Critic.Coverage.{CoverageEntry, finding_kinds_of, under_covered}
use agentic_dev_harness.Critic.Precision.{PrecisionEntry}
use agentic_dev_harness.Critic.Grounding.{Inputs, Grounding, Loads, at_critic}
use agentic_dev_harness.Critic.Reply.{Decoder}
use agentic_dev_harness.Relay.{has_turn, Relayed, awaiting, gap, advanced, emit, resume}
use agentic_dev_harness.Worktree.{capture_footprint}
use agentic_dev_harness.Commands.World.{
  World, Machine, Outcome, done, error, exit, missing_operand, dry_run_unsupported,
}
use agentic_dev_harness.Commands.Run.{
  RunConfig, adjudicate_stage, blocked_with, is_open, ops_message, report_done,
}

-- The workspace of the relay.
pub record Workspace (U : Type 0) : Type 0 where
  pub world : World U
  pub coverage : List CoverageEntry
  pub misses : List Miss

-- What a relayed command reads besides the configuration of the drive: the registry of tools, the
-- acceptance bars and their hash, git, the reply, and which of the two logs can be used.
pub record RelayConfig (U T P : Type 0) : Type 0 where
  pub decoder : Decoder U
  pub loads : Loads P
  pub tools : Result (List T)
  pub proof_contract : Resolution → String
  pub bar_hash : String → String
  pub diff : List String → String
  pub denied : List String
  pub noisy : List PrecisionEntry → List String
  pub clean : String → String
  pub changed : Option (List String)
  pub response : Option (Result String)
  pub coverage_read : Bool
  pub coverage_written : Bool
  pub misses_written : Bool

-- A part of a command ends it, or goes on with the arc.
pub data Part (U : Type 0) : Type 0 where
  stop : Outcome → Workspace U → Part U
  next : Arc U → Workspace U → Part U

abbrev pub is_execution : Stage → Bool
is_execution execution = true
is_execution _ = false

abbrev pub is_strategy : Stage → Bool
is_strategy strategy = true
is_strategy _ = false

module _ {U : Type 0} (machine : Machine) where
  abbrev pub stored : String → Arc U → Workspace U → Result (Store U) → Part U
  stored name arc w (ok store) = next arc (record w { world = record w.world { store = store } })
  stored name arc w (err e) = stop (error (context name e)) w

  -- `store.Save(arc)`, with the error wrapped by the command's name
  abbrev pub saved : String → Arc U → Workspace U → Part U
  saved name arc w = stored name arc w (save machine.files arc w.world.store)

abbrev pub and_then : {U : Type 0} → Part U → (Arc U → Workspace U → Part U) → Part U
and_then (stop o w) k = stop o w
and_then (next arc w) k = k arc w

module _ {U T P : Type 0} (relay : RelayConfig U T P) where
  -- `recordCoverage`, and the guard of `AppendCoverage`: no kinds are not recorded.
  unfoldable pub record_coverage : Arc U → Workspace U → Workspace U
  unfolding finding_kinds_of
  record_coverage arc w =
      let kinds_ = finding_kinds_of arc.findings in
      if relay.coverage_written && not (is_empty kinds_)
      then record w { coverage = w.coverage ++ record { arc = arc.id; kinds = kinds_ } ∷ [] }
      else w

  -- `recordMiss`
  unfoldable pub record_miss : String → Arc U → Workspace U → Workspace U
  record_miss stratum arc w =
      if relay.misses_written
      then record w {
        misses =
            w.misses
            ++ record { arc = arc.id; labels = arc.labels; paths = arc.paths; stratum = stratum }
              ∷ [];
      }
      else w

  -- `underCovered`
  unfoldable pub under_covered_names : List CoverageEntry → List String
  unfolding under_covered kind_text
  under_covered_names entries =
      if relay.coverage_read then map kind_text (under_covered entries finding_kinds) else []

  -- The bar and the footprint that the turn of a stage leaves on the arc behind it.
  unfoldable pub after_turn : Stage → Arc U → Arc U
  unfolding capture_footprint
  after_turn from arc =
      let barred : Arc U =
        if is_strategy from
        then record arc { bar = relay.bar_hash (relay.proof_contract arc.resolution) }
        else arc in
      if is_execution from then capture_footprint relay.clean relay.changed barred else barred

module _ {U T P F : Type 0} (machine : Machine) (cfg : RunConfig U (Grounding U T P) F)
    (relay : RelayConfig U T P) where
  -- What follows the reply: `Resume`, the traces of the turn, and the save.
  abbrev pub replied : String → Arc U → Workspace U → Result String → Part U
  replied name arc w (err e) = stop (error (context name e)) w
  replied name arc w (ok text) = elim (resume relay.decoder arc text cfg.prompter cfg.judgment) [
    | err e ↦ stop (error (context name e)) w
    | ok moved ↦
        let arc' = after_turn relay arc.stage moved in
        let w' : Workspace U = if at_critic arc.stage then record_coverage relay arc' w else w in
        saved machine name arc' w'
  ]

  -- `resumeRelay`
  unfoldable pub resume_relay : Result String → Arc U → Workspace U → Part U
  unfolding resume after_turn record_coverage stage_text same_stage
  resume_relay response arc w =
      if has_turn arc.pending arc.stage
      then replied "run" arc w response
      else stop
          (error (
            coded conflict (
              concat (
                "run: arc "
                ∷ arc.id
                ∷ " has no pending "
                ∷ stage_text arc.stage
                ∷ " turn to resume"
                ∷ []))))
          w

  -- The inputs of the critic's grounding, and those of every stage.
  unfoldable pub inputs : Bool → Arc U → Workspace U → List T → Inputs U T
  unfolding under_covered_names
  inputs with_noisy arc w tools_ =
      let plain : Inputs U T = record {
        acceptance_bar = relay.proof_contract arc.resolution;
        diff = "";
        tools = tools_;
        coverage = [];
        noisy = [];
        denied = [];
        prior_gaps = arc.unexamined;
      } in
      if at_critic arc.stage
      then record plain {
        diff = relay.diff arc.paths;
        coverage = under_covered_names relay w.coverage;
        noisy = if with_noisy then relay.noisy w.world.logs.precision else [];
        denied = relay.denied;
      }
      else plain

  abbrev pub reported : Part U → Outcome × Workspace U
  reported (stop o w) = (o, w)
  reported (next arc w) = (done, w)

  -- What follows `Emit`: the miss is recorded, or the parked turn is saved.
  abbrev pub emitted : String → Arc U → Workspace U → Arc U × Relayed → Outcome × Workspace U
  emitted name arc w (arc', gap) = (exit 12, record_miss relay cfg.stratum arc w)
  emitted name arc w (arc', awaiting prompt ungrounded withheld) =
      reported (saved machine name arc' w)
  emitted name arc w (arc', advanced) = reported (saved machine name arc' w)

  abbrev pub emit_with :
      String → Bool → Arc U → Workspace U → Result (List T) → Outcome × Workspace U
  emit_with name with_noisy arc w (err e) = (error (context name e), w)
  emit_with name with_noisy arc w (ok tools_) =
      elim (emit relay.loads arc (inputs with_noisy arc w tools_) cfg.prompter reasoning
        cfg.judgment) [ err e ↦ (error (context name e), w) | ok turn ↦ emitted name arc w turn ]

  -- `emitRelay`
  unfoldable pub emit_relay : Arc U → Workspace U → Outcome × Workspace U
  unfolding emit inputs record_miss
  emit_relay arc w = emit_with "run" true arc w relay.tools

  -- The arm of the loop for Evaluation.
  abbrev pub evaluated : Workspace U → Result (Arc U) × World U → Part U
  evaluated w (err e, world) = stop (error e) (record w { world = world })
  evaluated w (ok arc, world) = saved machine "run" arc (record w { world = world })

  abbrev pub relay_at : Stage → Arc U → Workspace U → Part U
  relay_at ops arc w =
      let (o, w') = reported (saved machine "run" (blocked_with machine cfg ops_message arc) w) in
      stop o w'
  relay_at evaluation arc w = evaluated w (adjudicate_stage machine cfg arc w.world)
  relay_at _ arc w = let (o, w') = emit_relay arc w in stop o w'

  -- The body of the loop of `driveRelay`, and its test.
  unfoldable pub relay_pass : Arc U → Workspace U → Part U
  unfolding emit_relay adjudicate_stage report_done
  relay_pass arc w =
      if is_open arc.status then relay_at arc.stage arc w else stop (report_done arc) w

  abbrev pub carry_on :
      (Arc U → Workspace U → Option (Outcome × Workspace U))
      → Part U
      → Option (Outcome × Workspace U)
  carry_on loop (stop o w) = some (o, w)
  carry_on loop (next arc w) = loop arc w

  -- The loop of `driveRelay`
  unfoldable pub relay_loop : ℕ → Arc U → Workspace U → Option (Outcome × Workspace U)
  unfolding relay_pass
  relay_loop zero arc w = none
  relay_loop (suc fuel) arc w = carry_on (relay_loop fuel) (relay_pass arc w)

  abbrev pub resumed : Option (Result String) → Arc U → Workspace U → Part U
  resumed none arc w = next arc w
  resumed (some text) arc w = resume_relay text arc w

  -- `driveRelay`: two passes are enough, since Evaluation runs at most once.
  unfoldable pub drive_relay : Arc U → Workspace U → Option (Outcome × Workspace U)
  unfolding relay_loop resume_relay
  drive_relay arc w = carry_on (relay_loop 2) (resumed relay.response arc w)

  abbrev pub relay_arc : Result (Arc U) → Workspace U → Option (Outcome × Workspace U)
  relay_arc (ok arc) w = drive_relay arc w
  relay_arc (err e) w = some (error (context "run" e), w)

  abbrev pub relay_behind : Option Outcome → String → Workspace U → Option (Outcome × Workspace U)
  relay_behind (some o) id w = some (o, w)
  relay_behind none id w = relay_arc (get machine.files id w.world.store) w

  -- `exec`, with `--relay`
  unfoldable pub run_relayed :
      Bool → Option Outcome → List String → Workspace U → Option (Outcome × Workspace U)
  run_relayed dry_run refused [] w = some (missing_operand, w)
  run_relayed dry_run refused (id ∷ args) w =
      if dry_run then some (dry_run_unsupported, w) else relay_behind refused id w
