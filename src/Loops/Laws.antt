-- ===== src/Loops/Laws.antt =====
-- When the registry of loops is valid.
use agentic_dev_harness.Shared.{
  ◌≡◌, ◌↔◌, ◌≢◌, false, none, List, map, String, eq_iff, arith, All, has,
}
use agentic_dev_harness.Adh.Error.{switch}
use agentic_dev_harness.Adh.Registry.{validate_from-Distinct, Distinct}
use agentic_dev_harness.Loops.{Loop, problem, validate}

-- A loop that names what it keeps true, how it senses a departure, and when it retires.
abbrev pub IsWhole : Loop → Type 0
IsWhole loop = (loop.id ≢ "") × (loop.goal ≢ "") × (loop.sensor ≢ "") × (loop.retire_when ≢ "")

problem-IsWhole :
    (seen : List String) (loop : Loop)
    → (problem seen loop ≡ none) ↔ (IsWhole loop × (has loop.id seen ≡ false))
unfolding problem switch
problem-IsWhole seen loop =
    let i = eq_iff loop.id "" in
    let g = eq_iff loop.goal "" in
    let s = eq_iff loop.sensor "" in
    let r = eq_iff loop.retire_when "" in ground (arith, i, g, s, r)

-- A registry of loops is valid exactly if every loop has an id, a goal, a sensor and a retirement
-- condition, and no id stands twice.
pub validate-loops_iff :
    (loops : List Loop)
    → (validate loops ≡ none) ↔ (All IsWhole loops × Distinct (map (λ loop. loop.id) loops))
unfolding validate
validate-loops_iff loops =
    validate_from-Distinct (λ loop. loop.id) problem IsWhole problem-IsWhole loops
