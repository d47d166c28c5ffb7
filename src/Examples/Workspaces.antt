-- ===== src/Examples/Workspaces.antt =====
-- The theorems about the workspace and the commands, at the sample arc.
use agentic_dev_harness.Shared.{◌≡◌, refl, ◌⊎◌, some, List, [], ◌∷◌, String, lookup}
use agentic_dev_harness.Adh.Stage.{strategy, ops, execution, open_}
use agentic_dev_harness.Adh.Arc.{Arc}
use agentic_dev_harness.Store.{get, path, save}
use agentic_dev_harness.Commands.World.{World, Outcome, done}
use agentic_dev_harness.Commands.Close.{close, checked}
use agentic_dev_harness.Commands.Close.Laws.{Ships, close_proven}
use agentic_dev_harness.Commands.Run.{drive}
use agentic_dev_harness.Commands.Run.Passes.{Ended}
use agentic_dev_harness.Commands.Run.Termination.{drive_parks}
use agentic_dev_harness.Examples.Data.{sample_arc, machine, world, outside, plain_close, run_config}

abbrev ready : World String
ready = world (sample_arc ops open_)

abbrev closed_world : World String
unfolding close
closed_world = (close machine outside plain_close ("arc-0001" ∷ []) ready).1

close_proven_example :
    (closed_world ≡ ready) ⊎ Ships machine outside plain_close "arc-0001" ready done closed_world
unfolding close get path lookup checked save
close_proven_example =
    close_proven machine outside plain_close "arc-0001" [] ready closed_world done refl

-- The sample arc does ship.
closing_ships : (close machine outside plain_close ("arc-0001" ∷ []) ready).0 ≡ done
unfolding close get path lookup checked save
closing_ships = refl

drive_parks_example :
    (o : Outcome) × (w' : World String) × (drive machine run_config 11
        (sample_arc strategy open_)
        (world (sample_arc strategy open_))
      ≡ some (o, w'))
    × Ended machine run_config "arc-0001" o w'
drive_parks_example =
    drive_parks machine run_config (sample_arc strategy open_) (world (sample_arc strategy open_))
      refl

abbrev saved_store : List (String × Arc String)
saved_store = (path "arc-0001", sample_arc execution open_) ∷ []
