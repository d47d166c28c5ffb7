-- ===== src/Examples/Cycles.antt =====
-- The theorems about the self-optimization cycle, for an arc that failed and one edit.
use mathlib.Core.List.{Memᴰ}
use Prim.Native.String.{len}
use agentic_dev_harness.Shared.{
  ℕ, ◌<◌, ◌≡◌, refl, ◌≢◌, ◌⊎◌, ◌↔◌, inr, arith, Bool, not, none, some, List, [], ◌∷◌, String, All,
  IsSorted, length, take, ◌++◌, cut, trim_space, ltb, if◌then◌else◌,
}
use agentic_dev_harness.Adh.Error.{Error, Result, ok, err, error_code, invalid}
use agentic_dev_harness.Adh.Stage.{ops, closed}
use agentic_dev_harness.Adh.Arc.{Arc}
use agentic_dev_harness.Judge.{Library, Check, contains_, Score, score}
use agentic_dev_harness.Judge.Laws.{Passes, score_cases}
use agentic_dev_harness.Lesson.{Lesson, by_class, distill}
use agentic_dev_harness.Lesson.Laws.{of_class, distill_iff}
use agentic_dev_harness.Evidence.{Evidence, Codec, keep, read, append, valid, byte_len}
use agentic_dev_harness.Evidence.Laws.{read-append}
use agentic_dev_harness.Consolidate.Signals.{Signal, collect_failures, collect_successes}
use agentic_dev_harness.Consolidate.Region.{
  start_mark, end_mark, block, region, apply_learned, current_learned,
}
use agentic_dev_harness.Consolidate.Region.Laws.{◌^^◌, Lacks, separator, apply_learned_keeps}
use agentic_dev_harness.Consolidate.Region.Reading.{
  current_learned-apply_learned, apply_learned_lost,
}
use agentic_dev_harness.Consolidate.Modes.{Mode, failure, success, mode_before, reflect}
use agentic_dev_harness.Consolidate.Modes.Laws.{Counts, reflect_iff}
use agentic_dev_harness.Consolidate.Scores.{
  Skillet, selection, hard_scores, line_cap, Diagnostic, Longitudinal, categorize, paired_counts,
}
use agentic_dev_harness.Consolidate.Scores.Counts.{
  has_improved, has_regressed, succeeds_still, fails_still, how_many, tagged, categorize_counts,
}
use agentic_dev_harness.Consolidate.Scores.Laws.{paired_counts-categorize}
use agentic_dev_harness.Consolidate.Plan.{Config, Cycle, first_cycle, plan}
use agentic_dev_harness.Examples.Data.{sample_arc, naturals}

abbrev library : Library
library = record {
  to_lower = λ s. s;
  quote = λ s. s;
  compile = λ s. none;
  compile_error = λ s. "no patterns";
  atoi = λ s. none;
  rune_count = λ s. 0;
}

abbrev skillet : Skillet naturals
skillet = record {
  Decision = Bool;
  evaluate = λ candidate current best. ltb current candidate;
  rejects = λ accepted. not accepted;
  action = λ accepted. if accepted then "accept" else "reject";
  select_score = λ hard soft metric weight. ok hard;
  hard_metric = "hard";
  significant = λ improved regressed. ltb regressed improved;
  hash = λ s. s;
}

abbrev fixed : ℕ → String
fixed n = "n"

abbrev failed_arc : Arc String
failed_arc = record (sample_arc ops closed) { history = "critic: fail: timeout" ∷ [] }

abbrev config : Config library naturals skillet fixed
config = record {
  marker = "M";
  edit_budget = 4;
  size_ratio = 100;
  metric = "";
  mixed_weight = 0;
  round = 0;
}

abbrev Run : Type 0
Run = Cycle library naturals skillet fixed

abbrev planned : Result Run
planned = plan library naturals skillet fixed "doc" "avoid a fail" (failed_arc ∷ []) [] config

abbrev blank_run : Run
blank_run = first_cycle library naturals skillet fixed [] [] (record { hard = 0; soft = 0 }) [] 0

cycle_from : Result Run → Run
cycle_from (ok c) = c
cycle_from (err e) = blank_run

-- The cycle adopts the edit.
accepted_text :
    (cycle_from planned).proposed ≡ "doc\n\n<!-- M START -->\navoid a fail\n<!-- M END -->\n"
unfolding plan cycle_from
accepted_text = refl

abbrev guided : String
guided = "doc\n<!-- M START -->\nold\n<!-- M END -->\nend"

apply_learned_keeps_example :
    ((before rest upto after : String) × (cut (start_mark "M") guided ≡ some (before, rest))
      × (cut (end_mark "M") guided ≡ some (upto, after))
      × (guided ≡ before ^^ (start_mark "M" ^^ rest))
      × (guided ≡ upto ^^ (end_mark "M" ^^ after))
      × (len before < len upto)
      × (apply_learned guided "new" "M" ≡ before ^^ (block "new" "M" ^^ after)))
    ⊎ (Lacks guided "M"
        × (apply_learned guided "new" "M"
            ≡ guided ^^ (separator guided ^^ (block "new" "M" ^^ "\n"))))
apply_learned_keeps_example = apply_learned_keeps guided "new" "M"

current_learned-apply_learned_example :
    current_learned (apply_learned "doc" "new" "M") "M" ≡ trim_space "new"
unfolding cut
current_learned-apply_learned_example =
    current_learned-apply_learned "doc" "new" "M" refl refl (inr refl)

abbrev stray : String
stray = "<!-- M END -->\n<!-- M START -->\nold\n<!-- M END -->\n"

apply_learned_lost_example :
    (region stray "M" ≡ none)
    × (current_learned stray "M" ≡ trim_space "\nold\n")
    × (current_learned (apply_learned stray "new" "M") "M" ≡ trim_space "\nold\n")
unfolding cut
apply_learned_lost_example =
    apply_learned_lost stray "new" "M" "<!-- M END -->\n" "\nold\n<!-- M END -->\n" "\nold\n" "\n"
      "" "\n<!-- M START -->\nold\n<!-- M END -->\n" refl refl refl (omega arith)

abbrev signals : List Signal
signals =
    record {
      arc = "arc-1";
      resolution = "change";
      failures = "fail: a" ∷ "fail: b" ∷ [];
      successes = "ok: c" ∷ [];
    }
    ∷ []

reflect_iff_example :
    IsSorted mode_before (reflect signals).failures
    × IsSorted mode_before (reflect signals).successes
    × ((m : Mode)
        → (Memᴰ m (reflect signals).failures ↔ Counts (collect_failures signals) failure m)
          × (Memᴰ m (reflect signals).successes ↔ (
              Counts (collect_successes signals) success m
              × (of_class m.class (collect_failures signals) ≡ []))))
reflect_iff_example = reflect_iff signals

abbrev scored : ℕ → List (Diagnostic library naturals)
scored hard =
    record { task = "fail"; split = selection; hard = hard; soft = hard; reason = "" } ∷ []

abbrev first_scores : List (String × naturals.F)
first_scores = hard_scores library naturals (scored 0) []

abbrev summary : Longitudinal library naturals
summary = categorize library naturals (scored 0) (scored 1)

categorize_counts_example :
    (summary.improved
      ≡ how_many library naturals first_scores
          (has_improved library naturals first_scores)
          (scored 1))
    × (summary.regressed
        ≡ how_many library naturals first_scores
            (has_regressed library naturals first_scores)
            (scored 1))
    × (summary.stable_success
        ≡ how_many library naturals first_scores
            (succeeds_still library naturals first_scores)
            (scored 1))
    × (summary.persistent_fail
        ≡ how_many library naturals first_scores
            (fails_still library naturals first_scores)
            (scored 1))
    × (summary.lines
        ≡ take line_cap (
            tagged library naturals first_scores "[regressed] "
              (has_regressed library naturals first_scores)
              (scored 1)
            ++ tagged library naturals first_scores "[persistent-fail] "
                (fails_still library naturals first_scores)
                (scored 1)))
categorize_counts_example = categorize_counts library naturals (scored 0) (scored 1)

paired_counts-categorize_example : paired_counts library naturals (scored 0) (scored 1) ≡ (
  (categorize library naturals (scored 0) (scored 1)).improved,
  (categorize library naturals (scored 0) (scored 1)).regressed,
)
paired_counts-categorize_example = paired_counts-categorize library naturals (scored 0) (scored 1)

abbrev notes : List String
notes = "fail: a" ∷ "error" ∷ "fail: b" ∷ []

distill_iff_example :
    IsSorted by_class (distill notes)
    × ((l : Lesson)
        → Memᴰ l (distill notes) ↔ ((l.instances ≢ []) × (l.instances ≡ of_class l.class notes)))
distill_iff_example = distill_iff notes

abbrev checks : List Check
checks = record { op = contains_; arg = "fail" } ∷ record { op = contains_; arg = "ok" } ∷ []

abbrev half : Score library naturals
half = record {
  hard = 0;
  soft = naturals.div 1 2;
  why = "contains: pass fail" ∷ "contains: fail ok" ∷ [];
}

score_cases_example :
    ((checks ≡ [])
      × (e : Error) × (score library naturals "a fail" checks ≡ err e)
      × (error_code e ≡ invalid))
    ⊎ ((checks ≢ [])
        × (s : Score library naturals) × (score library naturals "a fail" checks ≡ ok s)
        × (length s.why ≡ length checks)
        × ((All (Passes library naturals "a fail") checks × (s.hard ≡ 1))
            ⊎ (¬ All (Passes library naturals "a fail") checks × (s.hard ≡ 0))))
score_cases_example = score_cases library naturals "a fail" checks

half_hard : score library naturals "a fail" checks ≡ ok half
unfolding score
half_hard = refl

abbrev kept : Evidence naturals
kept = record {
  timestamp = "";
  arc = "";
  stage = "";
  gate_action = "accept";
  old_score = 0;
  new_score = 1;
  status = keep;
  note = "";
}

abbrev codec : Codec naturals
codec = record { encode = λ r. ok "kept"; decode = λ line. some kept }

read-append_example :
    ((append naturals codec (λ k. none) 0 (kept ∷ [])).1 ≡ none)
    × (read naturals codec none (append naturals codec (λ k. none) 0 (kept ∷ [])).0
        ≡ ok (kept ∷ []))
unfolding trim_space valid byte_len
read-append_example =
    read-append naturals codec (kept ∷ []) (refl, tt)
      (
        record {
          line = "kept";
          encoded = refl;
          trimmed = refl;
          full = λ e. cc;
          short = omega arith;
          decoded_ = refl;
        },
        tt,
      )
