-- ===== src/Commands/Approve.antt =====
-- cmd/approve/approve.go: a human lets an arc through the gate at which it waits.
pub mod Laws
use agentic_dev_harness.Shared.{
  Bool, true, false, List, [], ◌∷◌, ◌++◌, String, if◌then◌else◌, concat,
}
use agentic_dev_harness.Adh.Error.{coded, conflict}
use agentic_dev_harness.Adh.Stage.{Status, open_, blocked, status_text}
use agentic_dev_harness.Adh.Arc.{Arc}
use agentic_dev_harness.Authority.{required_approval_phrase, gate_satisfied}
use agentic_dev_harness.Commands.World.{
  Machine, error, exit, missing_operand, Command, with_arc, saving, finished,
}

-- `arc.Status != adh.StatusBlocked`
abbrev pub is_blocked : Status → Bool
is_blocked blocked = true
is_blocked _ = false

module _ {U : Type 0} (machine : Machine) (phrase : String) (dry_run : Bool) where
  abbrev pub approved : Arc U → Arc U
  approved arc = record arc { status = open_; history = arc.history ++ "gate approved" ∷ [] }

  abbrev pub at_gate : String → Arc U → Command U
  at_gate id arc w =
      if is_blocked arc.status
      then (if gate_satisfied (required_approval_phrase id) phrase dry_run
          then saving machine "approve" (approved arc) (finished machine) w
          else (exit 4, w))
      else (
        error (
            coded conflict (
              concat (
                "approve: arc "
                ∷ id
                ∷ " is not waiting at a gate (status "
                ∷ status_text arc.status
                ∷ ")"
                ∷ []))),
        w,
      )

  -- `exec`
  unfoldable pub approve : List String → Command U
  approve [] w = (missing_operand, w)
  approve (id ∷ args) w = with_arc machine "approve" id (at_gate id) w
