-- ===== src/Critic/Grounding/Laws.antt =====
-- What a stage is grounded on, and when the critic has a gap.
use agentic_dev_harness.Shared.{Bool, List, [], String, filter, is_empty, lookup}
use agentic_dev_harness.Adh.Stage.{Stage}
use agentic_dev_harness.Adh.Arc.{Arc}
use agentic_dev_harness.Context.Freshness.{ContextUnit}
use agentic_dev_harness.Critic.Grounding.{Grounding, Loads, or_empty, read_contents}

-- The content of a unit has no hidden characters.
abbrev pub clean : (String → List String) → List (String × String) → ContextUnit → Bool
clean hidden contents u = is_empty (hidden (or_empty (lookup u.id contents)))

-- The units of the store whose content has no hidden characters.
abbrev pub readable : {P : Type 0} → Loads P → List ContextUnit → List ContextUnit
readable loads units = filter (clean loads.hidden (read_contents loads.content units [])) units
