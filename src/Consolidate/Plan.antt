-- ===== src/Consolidate/Plan.antt =====
-- internal/consolidate/consolidate.go: one cycle, from the artifact and the closed arcs to a decision
-- about a candidate. `lib` and `skillet` are what is used of libraries, and `fixed` is `%.3f`.
pub mod Laws
use Prim.Native.String.{len}
use agentic_dev_harness.Shared.{
  ℕ, zero, suc, ◌+◌, Bool, true, false, not, Option, none, some, List, [], ◌∷◌, ◌++◌, String, ◌==◌,
  if◌then◌else◌, concat, ltb, has, trim_space,
}
use agentic_dev_harness.Adh.Error.{Error, Result, ok, err, wrap, ◌>>=◌}
use agentic_dev_harness.Adh.Arc.{Arc}
use agentic_dev_harness.Float.{Float}
use agentic_dev_harness.Judge.{Library}
use agentic_dev_harness.Verdict.{Adoption, Measured, decide_adoption, replicate}
use agentic_dev_harness.Evidence.{Evidence, Outcome, baseline, keep}
use agentic_dev_harness.Consolidate.Signals.{Signal, harvest}
use agentic_dev_harness.Consolidate.Region.{apply_learned}
use agentic_dev_harness.Consolidate.Scores.{
  Split, selection, test, Task, Skillet, SplitScore, Diagnostic, Longitudinal, mine, score_split,
  score_seeded, categorize, paired_counts, slow_guidance, within_size_budget, no_counts,
}

module _ (lib : Library) (float : Float) (skillet : Skillet float) (fixed : float.F → String) where
  open float use {F, zero as none_, of_nat, add, sub, div, eq}
  open skillet use {
    Decision, evaluate, rejects, action, select_score, hard_metric, significant, hash,
  }

  -- `Config`, for an edit budget and a round that are not negative
  pub record Config : Type 0 where
    pub marker : String
    pub edit_budget : ℕ
    pub size_ratio : F
    pub metric : String
    pub mixed_weight : F
    pub round : ℕ

  -- `DefaultConfig`
  abbrev pub default_config : Config
  default_config = record {
    marker = "ADH:LEARNED";
    edit_budget = 4;
    size_ratio = div (of_nat 3) (of_nat 2);
    metric = hard_metric;
    mixed_weight = none_;
    round = 0;
  }

  -- `Cycle`
  pub record Cycle : Type 0 where
    pub signals : List Signal
    pub tasks : List Task
    pub baseline_score : F
    pub candidate_score : F
    pub baseline_soft : F
    pub candidate_soft : F
    pub decision : Decision
    pub proposed : String
    pub staging_id : String
    pub diags : List (Diagnostic lib float)
    pub longitudinal : Longitudinal lib float
    pub slow_guidance_ : String
    pub verdict : Option Adoption
    pub replication : Option Adoption
    pub records : List (Evidence float)

  -- `metricScore`
  unfoldable pub metric_score : Config → SplitScore lib float → Result F
  metric_score cfg score =
      let metric = if cfg.metric == "" then hard_metric else cfg.metric in
      elim (select_score score.hard score.soft metric cfg.mixed_weight) [
        | ok projected ↦ ok projected
        | err e ↦ err (wrap "consolidate.metricScore" e)
      ]

  -- `record`
  abbrev pub evidence : Decision → F → F → Outcome → String → List (Evidence float)
  evidence decision old new status note =
      record {
        timestamp = "";
        arc = "";
        stage = "";
        gate_action = action decision;
        old_score = old;
        new_score = new;
        status = status;
        note = note;
      }
      ∷ []

  -- What `proposal` returns: a note, or a candidate to score.
  pub data Proposal : Type 0 where
    refused : String → Proposal
    candidate : String → Proposal

  -- The cases of the `switch` of `proposal`, behind its first test.
  abbrev pub screen : Bool → Bool → Bool → Bool → String → Proposal
  screen blank same sized seen next =
      if blank
      then refused "optimizer proposed no edit"
      else if same
      then refused "learned region unchanged (no-op edit)"
      else if not sized
      then refused "candidate exceeds the size budget"
      else if seen
      then refused "candidate was rejected in an earlier cycle"
      else candidate next

  -- `proposal`, with `IsNoOp` of internal/edit
  unfoldable pub proposal : String → String → List String → Config → Proposal
  unfolding trim_space apply_learned within_size_budget
  proposal artifact learned rejected cfg =
      let next = apply_learned artifact learned cfg.marker in
      screen (trim_space learned == "") (hash artifact == hash next)
        (within_size_budget lib float (len artifact) (len next) cfg.size_ratio)
        (has (hash next) rejected) next

  -- The comparison of `setLongitudinal`
  unfoldable pub compare_test : String → String → List Task → Result (Longitudinal lib float)
  unfolding score_split categorize
  compare_test before after tasks = do
    (_, before_diags) ← score_split lib float before tasks test
    (_, after_diags) ← score_split lib float after tasks test
    ok (categorize lib float before_diags after_diags)

  abbrev pub with_longitudinal : Cycle → Longitudinal lib float → Cycle
  with_longitudinal c long = record c {
    longitudinal = long;
    slow_guidance_ = slow_guidance lib float long;
  }

  -- `setLongitudinal`
  unfoldable pub set_longitudinal : Cycle → String → String → List Task → Result Cycle
  unfolding compare_test slow_guidance
  set_longitudinal c before after tasks = do
    long ← compare_test before after tasks
    ok (with_longitudinal c long)

  -- `verdict.DefaultMinEffect`
  abbrev pub min_effect : F
  min_effect = div (of_nat 5) (of_nat 100)

  -- `verdictFor`
  unfoldable pub verdict_for : F → F → Longitudinal lib float → Adoption
  unfolding decide_adoption
  verdict_for base cand long =
      decide_adoption float (record { delta = sub cand base; significant = false })
        (record {
          delta = sub (of_nat long.improved) (of_nat long.regressed);
          significant = significant long.improved long.regressed;
        })
        min_effect
        (ltb 0 (long.improved + long.regressed + long.stable_success + long.persistent_fail))

  -- `runOutcome`
  unfoldable pub run_outcome : String → String → List Task → Config → ℕ → Result (Measured F)
  unfolding score_seeded metric_score paired_counts
  run_outcome artifact cand tasks cfg seed = do
    (base_split, base_diags) ← score_seeded lib float hash artifact tasks seed
    base ← metric_score cfg base_split
    (cand_split, cand_diags) ← score_seeded lib float hash cand tasks seed
    new ← metric_score cfg cand_split
    let (improved, regressed) = paired_counts lib float base_diags cand_diags
    ok (record { delta = sub new base; significant = significant improved regressed })

  -- The loop of `replicationVerdict`, `seed` being the next of `left` seeds.
  unfoldable pub run_outcomes :
      String → String → List Task → Config → ℕ → ℕ → Result (List (Measured F))
  unfolding run_outcome
  run_outcomes artifact cand tasks cfg zero seed = ok []
  run_outcomes artifact cand tasks cfg (suc left) seed = do
    outcome ← run_outcome artifact cand tasks cfg seed
    rest ← run_outcomes artifact cand tasks cfg left (seed + 1)
    ok (outcome ∷ rest)

  -- `replicationVerdict`
  unfoldable pub replication_verdict : String → String → List Task → Config → ℕ → Result Adoption
  unfolding run_outcomes replicate
  replication_verdict artifact cand tasks cfg runs = do
    outcomes ← run_outcomes artifact cand tasks cfg runs 1
    ok (replicate float outcomes min_effect)

  -- `DefaultReplicationRuns`
  abbrev pub replication_runs : ℕ
  replication_runs = 3

  abbrev pub with_verdicts : Cycle → Adoption → Adoption → Cycle
  with_verdicts c verdict replication = record c {
    verdict = some verdict;
    replication = some replication;
  }

  -- `setVerdicts`
  unfoldable pub set_verdicts : Cycle → String → String → List Task → F → F → Config → Result Cycle
  unfolding verdict_for replication_verdict
  set_verdicts c artifact cand tasks base new cfg = do
    replication ← replication_verdict artifact cand tasks cfg replication_runs
    ok (with_verdicts c (verdict_for base new c.longitudinal) replication)

  -- The end of `Plan`, of a cycle whose candidate was scored and labelled.
  unfoldable pub conclude : Cycle → String → F → F → Cycle
  conclude c cand base new =
      if rejects c.decision
      then record c {
        staging_id = hash cand;
        records =
            evidence c.decision base new baseline
              (concat ("candidate " ∷ fixed new ∷ " did not beat baseline " ∷ fixed base ∷ []));
      }
      else record c {
        staging_id = hash cand;
        proposed = cand;
        records =
            evidence c.decision base new keep
              (concat ("candidate improved selection " ∷ fixed base ∷ " -> " ∷ fixed new ∷ []));
      }

  -- A cycle with the scores of a candidate and the gate's decision.
  abbrev pub with_scores :
      Cycle → SplitScore lib float → List (Diagnostic lib float) → F → F → Cycle
  with_scores c cand_split cand_diags base new = record c {
    candidate_score = new;
    candidate_soft = cand_split.soft;
    decision = evaluate new base base;
    diags = cand_diags;
  }

  -- What `Plan` does with a candidate that was scored.
  unfoldable pub label : Cycle → String → String → List Task → F → F → Config → Result Cycle
  unfolding set_longitudinal set_verdicts conclude
  label c artifact cand tasks base new cfg = do
    c' ← set_longitudinal c artifact cand tasks
    c'' ← set_verdicts c' artifact cand tasks base new cfg
    ok (conclude c'' cand base new)

  -- What `Plan` does behind `proposal`.
  unfoldable pub judge_proposal : Cycle → String → List Task → F → Config → Proposal → Result Cycle
  unfolding set_longitudinal score_split metric_score label
  judge_proposal c artifact tasks base cfg (refused note) = do
    c' ← set_longitudinal c artifact artifact tasks
    ok (record c' { records = evidence c'.decision base base baseline note })
  judge_proposal c artifact tasks base cfg (candidate cand) = do
    scored ← score_split lib float cand tasks selection
    new ← metric_score cfg scored.0
    label (with_scores c scored.0 scored.1 base new) artifact cand tasks base new cfg

  -- The cycle that `Plan` starts from.
  abbrev pub first_cycle :
      List Signal → List Task → SplitScore lib float → List (Diagnostic lib float) → F → Cycle
  first_cycle signals tasks base_split base_diags base = record {
    signals = signals;
    tasks = tasks;
    baseline_score = base;
    candidate_score = base;
    baseline_soft = base_split.soft;
    candidate_soft = none_;
    decision = evaluate base base base;
    proposed = "";
    staging_id = "";
    diags = base_diags;
    longitudinal = no_counts lib float;
    slow_guidance_ = "";
    verdict = none;
    replication = none;
    records = [];
  }

  module _ {U : Type 0} where
    -- `Plan`
    unfoldable pub plan : String → String → List (Arc U) → List String → Config → Result Cycle
    unfolding harvest mine score_split metric_score proposal judge_proposal
    plan artifact learned arcs rejected cfg = do
      let signals = harvest lib.to_lower arcs
      let tasks = mine hash signals
      scored ← score_split lib float artifact tasks selection
      base ← metric_score cfg scored.0
      judge_proposal (first_cycle signals tasks scored.0 scored.1 base) artifact tasks base cfg
          (proposal artifact learned rejected cfg)
