-- ===== src/Commands/Lifecycle.antt =====
-- The life of a workspace under the commands of cmd/approve, cmd/reject, cmd/closecmd, cmd/run and
-- cmd/step: a step is any of them, with any arguments and any answers from outside.
pub mod Touches
pub mod Effects
pub mod Drive
pub mod Parts
pub mod Stepping
pub mod Relaying
pub mod Laws
use agentic_dev_harness.Shared.{ℕ, ◌≡◌, Bool, Option, some, List, String}
use agentic_dev_harness.Commands.World.{World, Machine, Outcome}
use agentic_dev_harness.Commands.Approve.{approve}
use agentic_dev_harness.Commands.Reject.{RejectConfig, reject}
use agentic_dev_harness.Commands.Close.{Outside, CloseConfig, close}
use agentic_dev_harness.Commands.Run.{RunConfig, run}
use agentic_dev_harness.Critic.Grounding.{Grounding}
use agentic_dev_harness.Commands.Relayed.{Workspace, RelayConfig, run_relayed}
use agentic_dev_harness.Commands.Step.{StepFlags, step}

pub data Step {U : Type 0} (w w' : World U) : Type 1 where
  approves :
      (machine : Machine) (phrase : String) (dry_run : Bool) (args : List String) (o : Outcome)
      → approve machine phrase dry_run args w ≡ (o, w')
      → Step w w'
  rejects :
      (machine : Machine) (cfg : RejectConfig) (args : List String) (o : Outcome)
      → reject machine cfg args w ≡ (o, w')
      → Step w w'
  closes :
      (machine : Machine) (outside : Outside U) (cfg : CloseConfig) (args : List String)
      (o : Outcome)
      → close machine outside cfg args w ≡ (o, w')
      → Step w w'
  runs :
      {G F : Type 0} (machine : Machine) (cfg : RunConfig U G F) (dry_run : Bool)
      (refused : Option Outcome) (args : List String) (o : Outcome)
      → run machine cfg dry_run refused args w ≡ some (o, w')
      → Step w w'
  steps :
      {T P F : Type 0} (machine : Machine) (cfg : RunConfig U (Grounding U T P) F)
      (relay : RelayConfig U T P) (flags : StepFlags) (refused : Option Outcome)
      (args : List String) (v v' : Workspace U) (o : Outcome)
      → step machine cfg relay flags refused args v ≡ (o, v')
      → v.world ≡ w
      → v'.world ≡ w'
      → Step w w'

-- A command, `run --relay` among them.
pub data AnyStep {U : Type 0} (w w' : World U) : Type 1 where
  by_step : Step w w' → AnyStep w w'
  relays :
      {T P F : Type 0} (machine : Machine) (cfg : RunConfig U (Grounding U T P) F)
      (relay : RelayConfig U T P) (dry_run : Bool) (refused : Option Outcome) (args : List String)
      (v v' : Workspace U) (o : Outcome)
      → run_relayed machine cfg relay dry_run refused args v ≡ some (o, v')
      → v.world ≡ w
      → v'.world ≡ w'
      → AnyStep w w'

-- Workspaces one after another.
pub data Reaches {U : Type 0} (R : World U → World U → Type 1) (w : World U)
    : World U → Type 1 where
  start : Reaches R w w
  after : {middle w' : World U} → Reaches R w middle → R middle w' → Reaches R w w'
