-- ===== src/Examples/Trees.antt =====
-- The theorem about executable configuration, for a tracked registry and a missing one.
use agentic_dev_harness.Shared.{◌≡◌, refl, ◌↔◌, true, none, some, [], ◌∷◌, ◌==◌, if◌then◌else◌, All}
use agentic_dev_harness.Adh.Error.{ok}
use agentic_dev_harness.Execconfig.{Tree, present, absent, require}
use agentic_dev_harness.Execconfig.Laws.{IsCommitted, require_iff}

abbrev committed : Tree
committed = record {
  is_repo = true;
  head = λ path. ok (some "{}");
  work = λ path. if path == ".adh/tools.json" then present "{}" else absent;
}

require_iff_example :
    (require committed (".adh/tools.json" ∷ ".adh/loops.json" ∷ []) ≡ none)
    ↔ All (IsCommitted committed) (".adh/tools.json" ∷ ".adh/loops.json" ∷ [])
require_iff_example = require_iff committed (".adh/tools.json" ∷ ".adh/loops.json" ∷ []) refl
