-- ===== src/Consolidate/Prompt.antt =====
-- internal/consolidate/consolidate.go: what the agent of a relayed proposal is shown, and the samples
-- by which the cycle's own judgement is measured.
use agentic_dev_harness.Shared.{
  ℕ, zero, suc, ◌+◌, Bool, true, false, not, ◌&&◌, List, [], ◌∷◌, String, ◌==◌, if◌then◌else◌,
  concat,
}
use agentic_dev_harness.Adh.Error.{Result, ok, err}
use agentic_dev_harness.Float.{Float}
use agentic_dev_harness.Judge.{Library, Score, score}
use agentic_dev_harness.Evidence.{Evidence, Outcome, keep}
use agentic_dev_harness.Consolidate.Signals.{Signal}
use agentic_dev_harness.Consolidate.Region.{current_learned}
use agentic_dev_harness.Consolidate.Modes.{reflect, write_modes}
use agentic_dev_harness.Consolidate.Scores.{Task, selection, same_split, mine, reason_for}

module _ (lib : Library) (float : Float) (hash : String → String) where
  open float use {F, of_nat, le, eq}

  -- Whether a task is listed: its score was computed, and its checks do not all pass.
  abbrev is_failing : Result (Score lib float) → Bool
  is_failing (err e) = false
  is_failing (ok s) = not (le (of_nat 1) s.hard)

  abbrev failing_line : Task → Result (Score lib float) → String
  failing_line t (err e) = ""
  failing_line t (ok s) = concat ("- " ∷ t.id ∷ " (" ∷ reason_for lib float s.hard ∷ ")\n" ∷ [])

  -- The loop of `writeFailingTasks`: the lines, and how many there are.
  unfoldable pub failing_tasks : String → List Task → String × ℕ
  unfolding score reason_for
  failing_tasks artifact [] = ("", 0)
  failing_tasks artifact (t ∷ tasks) =
      let (text, failing) = failing_tasks artifact tasks in
      let result = score lib float artifact t.checks in
      if same_split t.split selection && is_failing result
      then (concat (failing_line t result ∷ text ∷ []), failing + 1)
      else (text, failing)

  abbrev none_failing : String × ℕ → String
  none_failing (text, zero) = "- (none — the current artifact passes every held-out assertion)\n"
  none_failing (text, suc n) = text

  -- `writeFailingTasks`
  unfoldable pub write_failing_tasks : List Signal → String → String
  unfolding failing_tasks mine
  write_failing_tasks signals artifact = none_failing (failing_tasks artifact (mine hash signals))

  abbrev current_region : String → String
  current_region current = if current == "" then "(empty)\n" else concat (current ∷ "\n" ∷ [])

  -- `ProposePrompt`
  unfoldable pub propose_prompt : List Signal → String → String → String
  unfolding reflect write_modes write_failing_tasks current_learned
  propose_prompt signals artifact marker =
      let reflection = reflect signals in
      concat (
        "Propose the single bounded edit to the LEARNED region below (§18).\n"
        ∷ "Reply with only the new region body; adh's held-out gate decides if it is kept.\n"
        ∷ "You may consult `adh tool run skillsaw-eval` for dimension scores first.\n\n"
        ∷ "Recurring failure modes to guard against (ranked by recurrence):\n"
        ∷ write_modes reflection.failures
        ∷ "\nSuccess modes to reinforce:\n"
        ∷ write_modes reflection.successes
        ∷ "\nCurrently-failing held-out assertions — target these (§18.6):\n"
        ∷ write_failing_tasks signals artifact
        ∷ "\nCurrent LEARNED region:\n"
        ∷ current_region (current_learned artifact marker)
        ∷ [])

  abbrev is_keep : Outcome → Bool
  is_keep keep = true
  is_keep _ = false

  -- The samples of `Calibration`: a score and whether the candidate was kept.
  unfoldable pub samples : List (Evidence float) → List (F × Bool)
  samples [] = []
  samples (r ∷ records) =
      let rest = samples records in
      if eq r.new_score r.old_score then rest else (r.new_score, is_keep r.status) ∷ rest

  -- `Calibration`, with the report that a library computes of the samples.
  unfoldable pub calibration : {R : Type 0} → (List (F × Bool) → R) → List (Evidence float) → R
  unfolding samples
  calibration compute records = compute (samples records)
