-- ===== src/Loops.antt =====
-- internal/loop: the registry of maintenance loops. The registry is a file of JSON; `Stored` is what
-- reading it gives.
pub mod Laws
use agentic_dev_harness.Shared.{Option, none, some, List, [], ◌∷◌, String, ◌==◌, concat, find?, has}
use agentic_dev_harness.Adh.Error.{Error, wrap, coded, invalid, switch, Result, ok, err}
use agentic_dev_harness.Adh.Registry.{validate_from}

-- `Loop`
pub record Loop : Type 0 where
  pub id : String
  pub goal : String
  pub sensor : String
  pub on_finding : String
  pub retire_when : String
  pub owner : String

abbrev message : List String → Error
message words = coded invalid (concat words)

-- The switch of `Validate` for one loop, with the ids before it.
unfoldable pub problem : List String → Loop → Option Error
unfolding switch
problem seen loop = switch (
    (loop.id == "", message ("loop with empty id" ∷ []))
    ∷ (loop.goal == "", message ("loop " ∷ loop.id ∷ " has no goal" ∷ []))
    ∷ (loop.sensor == "", message ("loop " ∷ loop.id ∷ " has no sensor" ∷ []))
    ∷ (loop.retire_when == "", message ("loop " ∷ loop.id ∷ " has no retirement condition" ∷ []))
    ∷ (has loop.id seen, message ("duplicate loop id: " ∷ loop.id ∷ []))
    ∷ [])

-- `Validate`
unfoldable pub validate : List Loop → Option Error
validate loops = validate_from (λ loop. loop.id) problem [] loops

-- `Find`
unfoldable pub find : String → List Loop → Option Loop
find id loops = find? (λ loop. loop.id == id) loops

-- `StarterRegistry`
abbrev pub starter_registry : List Loop
starter_registry =
    record {
      id = "context-drift";
      goal = "routed context still matches its canonical source";
      sensor = "adh context verify";
      on_finding = "open arc";
      retire_when = "no context units declare an integrity check";
      owner = "context";
    }
    ∷ record {
      id = "harness-integrity";
      goal = "the harness is intact: registries valid, ids unique, refs resolve";
      sensor = "adh doctor";
      on_finding = "open arc";
      retire_when = "the harness is retired";
      owner = "harness";
    }
    ∷ record {
      id = "lesson-backlog";
      goal = "confirmed lessons are promoted, not left as candidates";
      sensor = "test ! -s .adh/lesson-candidates.json";
      on_finding = "open arc";
      retire_when = "lessons are promoted at the point of confirmation";
      owner = "lesson";
    }
    ∷ []

-- What reading the file gives: nothing there, its loops, or an error of the file or of decoding.
pub data Stored : Type 0 where
  absent : Stored
  stored : List Loop → Stored
  unreadable : Error → Stored

-- `Load`
unfoldable pub load : Stored → Result (List Loop)
load absent = ok []
load (stored loops) = ok loops
load (unreadable e) = err (wrap "loop.Load" e)
