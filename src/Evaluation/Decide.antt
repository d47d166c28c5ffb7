-- ===== src/Evaluation/Decide.antt =====
-- internal/evaluation/evaluation.go: what a verdict makes of an arc, and the change to the arc.
use agentic_dev_harness.Shared.{
  ℕ, suc, not, ◌||◌, [], ◌∷◌, ◌++◌, String, if◌then◌else◌, leb, is_empty, length, concat, join,
  decimal,
}
use agentic_dev_harness.Adh.Stage.{execution, ops, failed}
use agentic_dev_harness.Adh.Arc.{Arc}
use agentic_dev_harness.Critic.Disposition.{Verdict, returns_to_execution, has_structural}
use agentic_dev_harness.Critic.Disposition.Notes.{reservation_notes}

abbrev pub default_max_reworks : ℕ
default_max_reworks = 2

pub data Disposition : Type 0 where
  advance_to_ops return_to_execution fail advance_with_reservation : Disposition

-- `Decide`
unfoldable pub decide : Verdict → ℕ → ℕ → Disposition
unfolding returns_to_execution has_structural
decide verdict reworks max_reworks =
    if not (returns_to_execution verdict)
    then (if is_empty verdict.reservations then advance_to_ops else advance_with_reservation)
    else if has_structural verdict || leb max_reworks reworks
    then fail
    else return_to_execution

-- The line that `recordDisposition` adds to the history.
disposition_line : Verdict → Disposition → ℕ → ℕ → String
disposition_line v return_to_execution reworks max_reworks = concat (
    "evaluation: "
    ∷ decimal (length v.confirmed)
    ∷ " finding(s) confirmed; returned to execution (rework "
    ∷ decimal reworks
    ∷ "/"
    ∷ decimal max_reworks
    ∷ ")"
    ∷ [])
disposition_line v fail reworks max_reworks = concat (
    "evaluation: "
    ∷ decimal (length v.confirmed)
    ∷ " finding(s) confirmed; failed after "
    ∷ decimal reworks
    ∷ " rework(s), escalate to a human"
    ∷ [])
disposition_line v advance_to_ops reworks max_reworks = concat (
    "evaluation: no findings confirmed; "
    ∷ decimal (length v.unconfirmed)
    ∷ " lesson candidate(s)"
    ∷ [])
disposition_line v advance_with_reservation reworks max_reworks = concat (
    "evaluation: no findings confirmed; advanced with "
    ∷ decimal (length v.reservations)
    ∷ " reservation(s): "
    ∷ join "; " (reservation_notes v)
    ∷ [])

module _ {U : Type 0} where
  abbrev pub moved : Disposition → Arc U → Arc U
  moved return_to_execution arc = record arc { reworks = suc arc.reworks; stage = execution }
  moved fail arc = record arc { status = failed }
  moved advance_to_ops arc = record arc { stage = ops }
  moved advance_with_reservation arc = record arc { stage = ops }

  -- `recordDisposition`
  unfoldable pub record_disposition : Arc U → Verdict → Disposition → ℕ → Arc U
  unfolding disposition_line
  record_disposition arc verdict disposition max_reworks =
      let arc' = moved disposition arc in
      record arc' {
        history =
            arc'.history ++ disposition_line verdict disposition arc'.reworks max_reworks ∷ [];
      }
