-- ===== src/Consolidate/Scores.antt =====
-- internal/consolidate/consolidate.go and internal/edit/edit.go: the tasks that are mined, the scores
-- of an artifact over a split of them, and how two artifacts compare task by task. The ratchet, the
-- content hash and the significance test stand in a library that is not part of the repository.
pub mod Laws
pub mod Counts
use Prim.Native.Nat.{◌%◌}
use Prim.Native.Char.{code}
use Prim.Native.String
use Prim.Native.String.{len}
use agentic_dev_harness.Shared.{
  ℕ, ◌+◌, Bool, true, false, not, Option, none, some, List, [], ◌∷◌, ◌++◌, String, ◌==◌,
  if◌then◌else◌, map, concat, take, ltb, eqb, lookup, insert, decimal,
}
use agentic_dev_harness.Adh.Error.{Error, Result, ok, err, wrap}
use agentic_dev_harness.Float.{Float}
use agentic_dev_harness.Judge.{Library, Check, contains_, Score, score}
use agentic_dev_harness.Lesson.{Lesson, distill}
use agentic_dev_harness.Consolidate.Signals.{Signal, collect_failures}

-- `Split`
pub data Split : Type 0 where
  selection test train : Split

abbrev pub same_split : Split → Split → Bool
same_split selection selection = true
same_split test test = true
same_split train train = true
same_split _ _ = false

-- `Task`
pub record Task : Type 0 where
  pub id : String
  pub split : Split
  pub checks : List Check

-- What is used of skillet: the ratchet's verdict on a candidate against the current and the best
-- score, whether it rejects, the projection of a hard and a soft score on one number by the name of
-- a metric and a weight, McNemar's test, and the content hash, written in hexadecimal.
pub record Skillet (float : Float) : Type 1 where
  pub Decision : Type 0
  pub evaluate : float.F → float.F → float.F → Decision
  pub rejects : Decision → Bool
  pub action : Decision → String
  pub select_score : float.F → float.F → String → float.F → Result float.F
  pub hard_metric : String
  pub significant : ℕ → ℕ → Bool
  pub hash : String → String

abbrev third : ℕ → Split
third n = if eqb (n % 3) 0 then selection else if eqb (n % 3) 1 then test else train

abbrev split_of_hash : String → Split
split_of_hash String.[] = train
split_of_hash (String.◌∷◌ c s) = third (code c)

module _ (hash : String → String) where
  -- `SplitFor`
  unfoldable pub split_for : String → Split
  split_for id = split_of_hash (hash id)

  -- `SplitForSeed`
  unfoldable pub split_for_seed : String → ℕ → Split
  unfolding split_for decimal
  split_for_seed id seed =
      if eqb seed 0 then split_for id else split_for (concat (decimal seed ∷ ":" ∷ id ∷ []))

  abbrev task_of : Lesson → Task
  task_of l = record {
    id = l.class;
    split = split_for l.class;
    checks = record { op = contains_; arg = l.class } ∷ [];
  }

  -- `Mine`
  unfoldable pub mine : List Signal → List Task
  unfolding distill split_for
  mine signals = map task_of (distill (collect_failures signals))

abbrev pub cap_lines : List String → ℕ → List String
cap_lines lines limit = take limit lines

-- `longitudinalLineCap`
abbrev pub line_cap : ℕ
line_cap = 8

module _ (lib : Library) (float : Float) where
  open float use {F, zero, of_nat, add, div, mul, lt, le}

  -- `SplitScore`
  pub record SplitScore : Type 0 where
    pub hard : F
    pub soft : F

  -- `Diagnostic`
  pub record Diagnostic : Type 0 where
    pub task : String
    pub split : Split
    pub hard : F
    pub soft : F
    pub reason : String

  -- `reasonFor`
  unfoldable pub reason_for : F → String
  reason_for hard = if le (of_nat 1) hard then "all checks pass" else "one or more checks fail"

  -- The variables of the loop of `scoreWhere`.
  pub record Sums : Type 0 where
    pub diags : List Diagnostic
    pub sum_hard : F
    pub sum_soft : F
    pub count : ℕ

  abbrev diagnosed : Task → Split → Score lib float → Diagnostic
  diagnosed t split s = record {
    task = t.id;
    split = split;
    hard = s.hard;
    soft = s.soft;
    reason = reason_for s.hard;
  }

  abbrev summed : Task → Split → Sums → Result (Score lib float) → Result Sums
  summed t split acc (err e) = err (wrap "consolidate.scoreWhere" e)
  summed t split acc (ok s) = ok (record {
    diags = acc.diags ++ diagnosed t split s ∷ [];
    sum_hard = add acc.sum_hard s.hard;
    sum_soft = add acc.sum_soft s.soft;
    count = acc.count + 1;
  })

  abbrev go_on : Result Sums → (Sums → Result Sums) → Result Sums
  go_on (err e) next = err e
  go_on (ok acc) next = next acc

  unfoldable pub score_loop : String → List Task → Split → (Task → Bool) → Sums → Result Sums
  unfolding score reason_for
  score_loop artifact [] split include acc = ok acc
  score_loop artifact (t ∷ tasks) split include acc =
      go_on (if include t then summed t split acc (score lib float artifact t.checks) else ok acc)
        (λ later. score_loop artifact tasks split include later)

  abbrev averaged : Result Sums → Result (SplitScore × List Diagnostic)
  averaged (err e) = err e
  averaged (ok s) =
      if eqb s.count 0
      then ok (record { hard = zero; soft = zero }, s.diags)
      else ok (
        record { hard = div s.sum_hard (of_nat s.count); soft = div s.sum_soft (of_nat s.count) },
        s.diags,
      )

  -- `scoreWhere`
  unfoldable pub score_where :
      String → List Task → Split → (Task → Bool) → Result (SplitScore × List Diagnostic)
  unfolding score_loop
  score_where artifact tasks split include = averaged (
      score_loop artifact tasks split include
        (record { diags = []; sum_hard = zero; sum_soft = zero; count = 0 }))

  -- `scoreSplit`
  unfoldable pub score_split : String → List Task → Split → Result (SplitScore × List Diagnostic)
  unfolding score_where
  score_split artifact tasks split =
      score_where artifact tasks split (λ t. same_split t.split split)

  -- `scoreSeeded`
  unfoldable pub score_seeded :
      (String → String) → String → List Task → ℕ → Result (SplitScore × List Diagnostic)
  unfolding score_where split_for_seed
  score_seeded hash artifact tasks seed =
      score_where artifact tasks selection
        (λ t. same_split (split_for_seed hash t.id seed) selection)

  -- `Longitudinal`
  pub record Longitudinal : Type 0 where
    pub improved : ℕ
    pub regressed : ℕ
    pub stable_success : ℕ
    pub persistent_fail : ℕ
    pub lines : List String

  -- The map from task to hard score of `Categorize` and of `pairedCounts`.
  unfoldable pub hard_scores : List Diagnostic → List (String × F) → List (String × F)
  unfolding insert
  hard_scores [] scores = scores
  hard_scores (d ∷ diags) scores = hard_scores diags (insert d.task d.hard scores)

  -- The variables of the loop of `Categorize`; its counts stand in a `Longitudinal`.
  pub record Tally : Type 0 where
    pub long : Longitudinal
    pub regressed : List String
    pub persistent : List String

  abbrev tallied : Option F → Diagnostic → Tally → Tally
  tallied none d t = t
  tallied (some before) d t =
      if lt before d.hard
      then record t { long = record t.long { improved = t.long.improved + 1 } }
      else if lt d.hard before
      then record t {
        long = record t.long { regressed = t.long.regressed + 1 };
        regressed = t.regressed ++ concat ("[regressed] " ∷ d.task ∷ []) ∷ [];
      }
      else if le (of_nat 1) d.hard
      then record t { long = record t.long { stable_success = t.long.stable_success + 1 } }
      else record t {
        long = record t.long { persistent_fail = t.long.persistent_fail + 1 };
        persistent = t.persistent ++ concat ("[persistent-fail] " ∷ d.task ∷ []) ∷ [];
      }

  unfoldable pub tally_loop : List (String × F) → List Diagnostic → Tally → Tally
  unfolding lookup
  tally_loop prev [] t = t
  tally_loop prev (d ∷ curr) t = tally_loop prev curr (tallied (lookup d.task prev) d t)

  abbrev pub no_counts : Longitudinal
  no_counts = record {
    improved = 0;
    regressed = 0;
    stable_success = 0;
    persistent_fail = 0;
    lines = [];
  }

  -- `Categorize`
  unfoldable pub categorize : List Diagnostic → List Diagnostic → Longitudinal
  unfolding hard_scores tally_loop
  categorize prev curr =
      let t =
        tally_loop (hard_scores prev []) curr
          (record { long = no_counts; regressed = []; persistent = [] }) in
      record t.long { lines = cap_lines (t.regressed ++ t.persistent) line_cap }

  abbrev paired : Option F → Diagnostic → ℕ × ℕ → ℕ × ℕ
  paired none d counts = counts
  paired (some was) d (improved, regressed) =
      if lt was d.hard
      then (improved + 1, regressed)
      else if lt d.hard was
      then (improved, regressed + 1)
      else (improved, regressed)

  unfoldable pub pair_loop : List (String × F) → List Diagnostic → ℕ × ℕ → ℕ × ℕ
  unfolding lookup
  pair_loop prev [] counts = counts
  pair_loop prev (d ∷ after) counts = pair_loop prev after (paired (lookup d.task prev) d counts)

  -- `pairedCounts`
  unfoldable pub paired_counts : List Diagnostic → List Diagnostic → ℕ × ℕ
  unfolding hard_scores pair_loop
  paired_counts before after = pair_loop (hard_scores before []) after (0, 0)

  abbrev avoid : String → String
  avoid line = concat ("- avoid: " ∷ line ∷ "\n" ∷ [])

  -- `SlowGuidance`
  unfoldable pub slow_guidance : Longitudinal → String
  unfolding decimal
  slow_guidance long = concat (
      concat (
        "Longitudinal: "
        ∷ decimal long.improved
        ∷ " improved, "
        ∷ decimal long.regressed
        ∷ " regressed, "
        ∷ decimal long.stable_success
        ∷ " stable, "
        ∷ decimal long.persistent_fail
        ∷ " persistent-fail.\n"
        ∷ [])
      ∷ (if ltb 0 long.stable_success
          then concat (
              "Preserve the "
              ∷ decimal long.stable_success
              ∷ " behaviors that stayed green.\n"
              ∷ [])
          else "")
      ∷ map avoid long.lines)

  -- `WithinSizeBudget` of internal/edit
  unfoldable pub within_size_budget : ℕ → ℕ → F → Bool
  within_size_budget orig_bytes new_bytes ratio =
      if eqb orig_bytes 0
      then eqb new_bytes 0
      else le (of_nat new_bytes) (mul (of_nat orig_bytes) ratio)
