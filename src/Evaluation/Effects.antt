-- ===== src/Evaluation/Effects.antt =====
-- What `Decide` and `Apply` promise.
use mathlib.Core.Path.{subst}
use mathlib.Core.List.{append-nil}
use agentic_dev_harness.Shared.{
  ℕ, suc, ◌≤◌, ◌≡◌, refl, Bool, true, false, List, [], ◌∷◌, ◌++◌, map, String, if◌then◌else◌, arith,
}
use agentic_dev_harness.Adh.Error.{ok}
use agentic_dev_harness.Adh.Stage.{execution, ops, failed}
use agentic_dev_harness.Adh.Arc.{Arc}
use agentic_dev_harness.Critic.Disposition.{Verdict, returns_to_execution}
use agentic_dev_harness.Critic.Disposition.Notes.{classes, lesson_notes, failure_notes}
use agentic_dev_harness.Critic.Precision.{PrecisionEntry, verdict_kinds, is_blank}
use agentic_dev_harness.Evaluation.Decide.{
  Disposition, advance_to_ops, return_to_execution, fail, advance_with_reservation, decide,
  record_disposition,
}
use agentic_dev_harness.Evaluation.Apply.{
  failure_record, record_strata, record_precision, blocks, when, apply,
}
use agentic_dev_harness.Failures.{
  FailureRecord, Logs, Disk, healthy, ◌>>=◌, Ensures, Ensures->>=, Ensures-pure, append_records,
  append_candidates, append_registry, append_precision,
}

append_records-healthy :
    (recs : List FailureRecord) (logs : Logs)
    → append_records healthy recs logs ≡ (ok tt, record logs { records = logs.records ++ recs })
unfolding append_records
append_records-healthy [] logs = rw append-nil
append_records-healthy (r ∷ recs) logs = refl

append_candidates-healthy :
    (notes : List String) (logs : Logs)
    → append_candidates healthy notes logs
      ≡ (ok tt, record logs { candidates = logs.candidates ++ notes })
unfolding append_candidates
append_candidates-healthy [] logs = rw append-nil
append_candidates-healthy (n ∷ notes) logs = refl

append_registry-healthy :
    (notes : List String) (logs : Logs)
    → append_registry healthy notes logs
      ≡ (ok tt, record logs { registry = logs.registry ++ notes })
unfolding append_registry
append_registry-healthy [] logs = rw append-nil
append_registry-healthy (n ∷ notes) logs = refl

append_precision-healthy :
    (entry : PrecisionEntry) (logs : Logs)
    → append_precision healthy entry logs ≡ (
      ok tt,
      record logs {
        precision = if is_blank entry then logs.precision else logs.precision ++ entry ∷ [];
      },
    )
unfolding append_precision
append_precision-healthy entry logs = ground arith

when-registry :
    (b : Bool) (notes : List String) (logs : Logs)
    → when b (append_registry healthy notes) logs
      ≡ (ok tt, record logs { registry = if b then logs.registry ++ notes else logs.registry })
when-registry true notes logs = append_registry-healthy notes logs
when-registry false notes logs = refl

when-candidates :
    (b : Bool) (notes : List String) (logs : Logs)
    → when b (append_candidates healthy notes) logs ≡ (
      ok tt,
      record logs { candidates = if b then logs.candidates ++ notes else logs.candidates },
    )
when-candidates true notes logs = append_candidates-healthy notes logs
when-candidates false notes logs = refl

-- A disposition writes the failure registry exactly if the verdict returns the arc to Execution.
blocks-decide :
    (v : Verdict) (reworks max_reworks : ℕ)
    → blocks (decide v reworks max_reworks) ≡ returns_to_execution v
unfolding decide
blocks-decide v reworks max_reworks = ground arith

module _ {U : Type 0} where
  -- Each disposition moves the arc in its own way.
  abbrev pub MovedBy : Disposition → Arc U → Arc U → Type 0
  MovedBy return_to_execution before after =
      (after.stage ≡ execution)
      × (after.status ≡ before.status)
      × (after.reworks ≡ suc before.reworks)
  MovedBy fail before after =
      (after.stage ≡ before.stage) × (after.status ≡ failed) × (after.reworks ≡ before.reworks)
  MovedBy _ before after =
      (after.stage ≡ ops) × (after.status ≡ before.status) × (after.reworks ≡ before.reworks)

  record_disposition-MovedBy :
      (arc : Arc U) (v : Verdict) (d : Disposition) (max_reworks : ℕ)
      → MovedBy d arc (record_disposition arc v d max_reworks)
  unfolding record_disposition
  record_disposition-MovedBy arc v return_to_execution max_reworks = (refl, refl, refl)
  record_disposition-MovedBy arc v fail max_reworks = (refl, refl, refl)
  record_disposition-MovedBy arc v advance_to_ops max_reworks = (refl, refl, refl)
  record_disposition-MovedBy arc v advance_with_reservation max_reworks = (refl, refl, refl)

  -- Clearing the findings changes nothing that `MovedBy` reads.
  cleared-MovedBy :
      (before after : Arc U) (d : Disposition)
      → MovedBy d before after
      → MovedBy d before (record after { findings = []; unexamined = [] })
  cleared-MovedBy before after return_to_execution m = m
  cleared-MovedBy before after fail m = m
  cleared-MovedBy before after advance_to_ops m = m
  cleared-MovedBy before after advance_with_reservation m = m

  -- The arc that `Apply` leaves when no write fails.
  abbrev pub disposed : Arc U → Verdict → ℕ → Arc U
  disposed arc v max_reworks =
      let arc' = record_disposition arc v (decide v arc.reworks max_reworks) max_reworks in
      record arc' { findings = []; unexamined = [] }

  -- The logs that `Apply` leaves when no write fails.
  abbrev pub logged : Arc U → Verdict → Bool → String → Logs → Logs
  logged arc v record_lessons stratum logs =
      let (confirmed, unconfirmed) = verdict_kinds v in
      let entry : PrecisionEntry = record {
        arc = arc.id;
        confirmed = confirmed;
        unconfirmed = unconfirmed;
      } in
      record {
        records = logs.records ++ map (failure_record arc stratum) (classes v);
        precision = if is_blank entry then logs.precision else logs.precision ++ entry ∷ [];
        candidates = if record_lessons then logs.candidates ++ lesson_notes v else logs.candidates;
        registry =
            if returns_to_execution v then logs.registry ++ failure_notes v else logs.registry;
      }

  -- On a disk that takes every write, `Apply` succeeds: it adds one failure record for each class
  -- of the verdict, one precision entry unless both of its lists are empty, the lesson notes if
  -- asked to, and the failure notes exactly if a finding was confirmed; then it moves the arc and
  -- clears its findings.
  pub apply-healthy :
      (arc : Arc U) (v : Verdict) (record_lessons : Bool) (max_reworks : ℕ) (stratum : String)
      (logs : Logs)
      → apply healthy arc v record_lessons max_reworks stratum logs
        ≡ (ok (disposed arc v max_reworks), logged arc v record_lessons stratum logs)
  unfolding apply record_strata record_precision ◌>>=◌
  apply-healthy arc v record_lessons max_reworks stratum logs = simp (
    append_records-healthy, append_precision-healthy, when-candidates, blocks-decide, when-registry,
  )

  -- Whatever the disk does, the arc of an `Apply` that succeeds is the one that it leaves when no
  -- write fails.
  pub apply-disposed :
      (disk : Disk) (arc : Arc U) (v : Verdict) (record_lessons : Bool) (max_reworks : ℕ)
      (stratum : String)
      → Ensures
          (λ arc'. disposed arc v max_reworks ≡ arc')
          (apply disk arc v record_lessons max_reworks stratum)
  unfolding apply
  apply-disposed disk arc v record_lessons max_reworks stratum = Ensures->>= _ _ λ a.
      Ensures->>= _ _ λ b.
        Ensures->>= _ _ λ c. Ensures->>= _ _ λ d. Ensures-pure (disposed arc v max_reworks) refl

  decide_budget :
      (arc : Arc U) (v : Verdict) (max_reworks : ℕ)
      → arc.reworks ≤ max_reworks
      → (disposed arc v max_reworks).reworks ≤ max_reworks
  unfolding decide record_disposition
  decide_budget arc v max_reworks h = ground arith

  -- However the writes go, an arc that `Apply` returns has moved as its verdict decides: to ops, or
  -- back to Execution with one rework more, or to failed; its findings are cleared, and its reworks
  -- stay within a budget that they were within.
  pub apply-MovedBy :
      (disk : Disk) (arc arc' : Arc U) (v : Verdict) (record_lessons : Bool) (max_reworks : ℕ)
      (stratum : String) (logs logs' : Logs)
      → apply disk arc v record_lessons max_reworks stratum logs ≡ (ok arc', logs')
      → MovedBy (decide v arc.reworks max_reworks) arc arc'
        × (arc'.findings ≡ [])
        × (arc'.unexamined ≡ [])
        × (arc.reworks ≤ max_reworks → arc'.reworks ≤ max_reworks)
  apply-MovedBy disk arc arc' v record_lessons max_reworks stratum logs logs' h =
      let e = (apply-disposed disk arc v record_lessons max_reworks stratum).at logs arc' logs' h in
      let d = decide v arc.reworks max_reworks in
      subst
        (λ a.
          MovedBy d arc a
          × (a.findings ≡ [])
          × (a.unexamined ≡ [])
          × (arc.reworks ≤ max_reworks → a.reworks ≤ max_reworks))
        e
        (
          cleared-MovedBy arc _ d (record_disposition-MovedBy arc v d max_reworks),
          refl,
          refl,
          decide_budget arc v max_reworks,
        )
