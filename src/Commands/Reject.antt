-- ===== src/Commands/Reject.antt =====
-- cmd/reject/reject.go: a human sends an arc from its gate back to Execution. Reverting the working
-- tree is git's; `revert` is whether it reverted the paths that it is given.
pub mod Laws
use agentic_dev_harness.Shared.{
  Bool, ◌&&◌, not, none, List, [], ◌∷◌, ◌++◌, String, ◌==◌, if◌then◌else◌, concat, is_empty,
}
use agentic_dev_harness.Adh.Error.{coded, conflict}
use agentic_dev_harness.Adh.Stage.{open_, execution, status_text}
use agentic_dev_harness.Adh.Arc.{Arc}
use agentic_dev_harness.Commands.World.{
  Machine, done, error, missing_operand, Command, with_arc, saving, finished,
}
use agentic_dev_harness.Commands.Approve.{is_blocked}

module _ {U : Type 0} where
  -- `returnToExecution`
  unfoldable pub return_arc : Arc U → Arc U
  return_arc arc = record arc {
    stage = execution;
    status = open_;
    pending = none;
    findings = [];
    unexamined = [];
    paths = [];
    labels = [];
  }

-- `rejectNote`
unfoldable pub reject_note : String → Bool → String
reject_note reason reverted = concat (
    "gate rejected"
    ∷ (if reason == "" then "" else concat (": " ∷ reason ∷ []))
    ∷ (if reverted then " (reverted)" else "")
    ∷ "; returned to execution"
    ∷ [])

-- What the command is given: the outcome of reverting paths, and its two flags.
pub record RejectConfig : Type 0 where
  pub revert : List String → Bool
  pub reason : String
  pub dry_run : Bool

module _ {U : Type 0} (machine : Machine) (cfg : RejectConfig) where
  open cfg use {revert, reason, dry_run}

  abbrev pub rejected : Arc U → Arc U
  rejected arc =
      let reverted = not (is_empty arc.paths) && revert arc.paths in
      let arc' = return_arc arc in
      record arc' { history = arc'.history ++ reject_note reason reverted ∷ [] }

  abbrev pub at_gate : String → Arc U → Command U
  at_gate id arc w =
      if is_blocked arc.status
      then (if dry_run
          then (done, w)
          else saving machine "reject" (rejected arc) (finished machine) w)
      else (
        error (
            coded conflict (
              concat (
                "reject: arc "
                ∷ id
                ∷ " is not waiting at a gate (status "
                ∷ status_text arc.status
                ∷ ")"
                ∷ []))),
        w,
      )

  -- `exec`
  unfoldable pub reject : List String → Command U
  unfolding return_arc reject_note
  reject [] w = (missing_operand, w)
  reject (id ∷ args) w = with_arc machine "reject" id (at_gate id) w
