-- ===== src/Examples/Relays.antt =====
-- The theorems about the relay and the workspace, at the sample arc.
use agentic_dev_harness.Shared.{
  ◌≡◌, refl, ◌≢◌, ◌⊎◌, true, false, not, ◌&&◌, Option, none, some, List, [], ◌∷◌, String, lookup,
}
use agentic_dev_harness.Adh.Error.{ok}
use agentic_dev_harness.Adh.Stage.{strategy, ops, evaluation, open_, same_stage}
use agentic_dev_harness.Adh.Arc.{Arc, Pending}
use agentic_dev_harness.Authority.{reasoning, model_gate, requires}
use agentic_dev_harness.Store.{path, get}
use agentic_dev_harness.Store.Refinement.{Call, creates, gets}
use agentic_dev_harness.Critic.Grounding.{Grounding, for_stage, at_critic, has_grounding}
use agentic_dev_harness.Relay.{has_turn, Relayed, awaiting, gap, context_ids, emit}
use agentic_dev_harness.Relay.Laws.{emit-parks}
use agentic_dev_harness.Commands.World.{Outcome}
use agentic_dev_harness.Commands.Run.{is_open}
use agentic_dev_harness.Commands.Relayed.{Workspace, next, drive_relay, resume_relay}
use agentic_dev_harness.Commands.Relayed.Laws.Saves.{Ends}
use agentic_dev_harness.Commands.Relayed.Laws.{
  IsAnswered, Refused, resume_relay-cases, drive_relay-Ends,
}
use agentic_dev_harness.Commands.Step.{step, StepFlags}
use agentic_dev_harness.Commands.Step.Moves.{Moves, step-Moves}
use agentic_dev_harness.Examples.Data.{
  sample_arc, waiting_arc, loads, relay_drive, relay_config, workspace, machine, plain_inputs,
}

abbrev new_prompt : Relayed
new_prompt = awaiting "fix the sum" false []

abbrev parked_arc : Arc String
parked_arc = record (sample_arc strategy open_) {
  pending = some (record { stage = strategy; prompt = "fix the sum" });
}

emit-parks_example :
    ((p : Pending) × (◌≡◌ {A = Option Pending} none (some p))
      × (same_stage p.stage strategy ≡ true)
      × (parked_arc ≡ sample_arc strategy open_)
      × (new_prompt ≡ awaiting p.prompt false []))
    ⊎ ((has_turn none strategy ≡ false)
        × ((g : Grounding String String String) × (for_stage loads
                (sample_arc strategy open_)
                plain_inputs
              ≡ ok (g, true)))
        × (parked_arc ≡ sample_arc strategy open_)
        × (new_prompt ≡ gap))
    ⊎ ((g : Grounding String String String) × (prompt : String) × (has_turn none strategy ≡ false)
        × (for_stage loads (sample_arc strategy open_) plain_inputs ≡ ok (g, false))
        × (strategy ≢ ops)
        × (model_gate strategy reasoning [] ≡ none)
        × (relay_drive.prompter (sample_arc strategy open_) (some g) ≡ ok prompt)
        × (parked_arc ≡ record (sample_arc strategy open_) {
          pending = some (record { stage = strategy; prompt = prompt });
          context = context_ids g.context;
        })
        × (new_prompt ≡ awaiting prompt (at_critic strategy && not (has_grounding g)) g.withheld))
unfolding emit model_gate requires
emit-parks_example =
    emit-parks loads (sample_arc strategy open_) plain_inputs relay_drive.prompter reasoning []
      parked_arc new_prompt refl

drive_relay-Ends_example :
    (o : Outcome) × (w' : Workspace String) × (drive_relay machine relay_drive
        (relay_config none)
        (sample_arc strategy open_)
        (workspace (sample_arc strategy open_))
      ≡ some (o, w'))
    × Ends "arc-0001" w' o
unfolding lookup path
drive_relay-Ends_example =
    drive_relay-Ends machine relay_drive (relay_config none) (sample_arc strategy open_)
      (workspace (sample_arc strategy open_)) refl

abbrev plan : String
plan = "resolution: change\nwrite the sum"

resume_relay-cases_example :
    Refused machine relay_drive
      (relay_config none)
      (waiting_arc strategy)
      (workspace (waiting_arc strategy))
      (resume_relay machine relay_drive
        (relay_config none)
        (ok plan)
        (waiting_arc strategy)
        (workspace (waiting_arc strategy)))
    ⊎ ((arc' : Arc String) × (w' : Workspace String) × (resume_relay machine relay_drive
            (relay_config none)
            (ok plan)
            (waiting_arc strategy)
            (workspace (waiting_arc strategy))
          ≡ next arc' w')
        × IsAnswered machine relay_drive
            (relay_config none)
            plan
            (waiting_arc strategy)
            (workspace (waiting_arc strategy))
            arc'
            w')
resume_relay-cases_example =
    resume_relay-cases machine relay_drive (relay_config none) plan (waiting_arc strategy)
      (workspace (waiting_arc strategy))

abbrev flags : StepFlags
flags = record { relay = false; dry_run = false }

abbrev stepped_workspace : Outcome × Workspace String
unfolding step
stepped_workspace =
    step machine relay_drive (relay_config none) flags none ("arc-0001" ∷ [])
      (workspace (sample_arc strategy open_))

abbrev unstepped : Workspace String
unstepped = workspace (sample_arc strategy open_)

step-Moves_example :
    (stepped_workspace.1 ≡ unstepped)
    ⊎ ((id : String) × (arc : Arc String) × (get machine.files id unstepped.world.store ≡ ok arc)
        × (is_open arc.status ≡ true)
        × (arc.stage ≢ ops)
        × (◌≡◌ {A = Option Outcome} none none)
        × (flags.dry_run ≡ false)
        × (flags.relay ≡ true → arc.stage ≢ evaluation)
        × Moves machine relay_drive
            (relay_config none)
            flags.relay
            arc
            unstepped
            stepped_workspace.1)
unfolding step
step-Moves_example =
    step-Moves machine relay_drive (relay_config none) flags none ("arc-0001" ∷ []) unstepped
      stepped_workspace.1 stepped_workspace.0 refl

-- The second id names the file of the first.
abbrev calls : List (Call String)
calls = creates (sample_arc strategy open_) ∷ gets "./arc-0001" ∷ gets "arc-0002" ∷ []

one_file : path "./arc-0001" ≡ path "arc-0001"
unfolding path
one_file = refl

abbrev no_arcs : String → Option (Arc String)
no_arcs file = none
