-- ===== src/Evaluation/Apply.antt =====
-- internal/evaluation/evaluation.go: `Apply` writes the logs of the repository in turn, stops at the
-- first that fails, and only then moves the arc.
use agentic_dev_harness.Shared.{ℕ, Bool, not, [], map, String, if◌then◌else◌, is_empty}
use agentic_dev_harness.Adh.Arc.{Arc}
use agentic_dev_harness.Critic.Disposition.{Verdict}
use agentic_dev_harness.Critic.Disposition.Notes.{classes, lesson_notes, failure_notes}
use agentic_dev_harness.Critic.Precision.{verdict_kinds}
use agentic_dev_harness.Evaluation.Decide.{
  Disposition, return_to_execution, fail, decide, record_disposition,
}
use agentic_dev_harness.Failures.{
  FailureRecord, classify_root_cause, Disk, Exec, ◌>>◌, pure, under, append_records,
  append_candidates, append_registry, append_precision,
}

abbrev pub blocks : Disposition → Bool
blocks return_to_execution = Bool.true
blocks fail = Bool.true
blocks _ = Bool.false

abbrev pub when : Bool → Exec (Unit {0}) → Exec (Unit {0})
when c m = if c then m else pure tt

module _ {U : Type 0} where
  -- One record of `recordStrata`.
  abbrev pub failure_record : Arc U → String → String → FailureRecord
  failure_record arc stratum class = record {
    class = class;
    stratum = stratum;
    labels = arc.labels;
    paths = arc.paths;
    root_cause = classify_root_cause (not (is_empty arc.context));
  }

module _ {U : Type 0} (disk : Disk) where
  -- `recordStrata`
  unfoldable pub record_strata : Arc U → Verdict → String → Exec (Unit {0})
  record_strata arc verdict stratum =
      under "evaluation.recordStrata"
        (append_records disk (map (failure_record arc stratum) (classes verdict)))

  -- `recordPrecision`
  unfoldable pub record_precision : Arc U → Verdict → Exec (Unit {0})
  record_precision arc verdict =
      let (confirmed, unconfirmed) = verdict_kinds verdict in
      under "evaluation.recordPrecision" (
        append_precision disk
          (record { arc = arc.id; confirmed = confirmed; unconfirmed = unconfirmed }))

  -- `Apply`
  unfoldable pub apply : Arc U → Verdict → Bool → ℕ → String → Exec (Arc U)
  apply arc verdict record_lessons max_reworks stratum = do
    under "evaluation.Apply" (record_strata arc verdict stratum)
    under "evaluation.Apply" (record_precision arc verdict)
    under "evaluation.Apply" (when record_lessons (append_candidates disk (lesson_notes verdict)))
    let disposition = decide verdict arc.reworks max_reworks
    under "evaluation.Apply"
        (when (blocks disposition) (append_registry disk (failure_notes verdict)))
    let arc' = record_disposition arc verdict disposition max_reworks
    pure (record arc' { findings = []; unexamined = [] })
