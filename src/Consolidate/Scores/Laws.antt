-- ===== src/Consolidate/Scores/Laws.antt =====
-- How two artifacts compare task by task: both counts of the code agree.
use agentic_dev_harness.Shared.{
  ℕ, ◌≡◌, inl, inr, refl, sym, ap, ◌∙◌, Option, none, some, List, [], ◌∷◌, String, lookup,
  Bool-cases,
}
use agentic_dev_harness.Float.{Float}
use agentic_dev_harness.Judge.{Library}
use agentic_dev_harness.Consolidate.Scores.{
  Diagnostic, Tally, hard_scores, tallied, tally_loop, no_counts, categorize, paired, pair_loop,
  paired_counts,
}

module _ (lib : Library) (float : Float) where
  open float use {F, lt, le, of_nat}

  abbrev Diag : Type 0
  Diag = Diagnostic lib float

  abbrev counts_of : Tally lib float → ℕ × ℕ
  counts_of t = (t.long.improved, t.long.regressed)

  -- One round of both loops.
  tallied-paired :
      (o : Option F) (d : Diag) (t : Tally lib float)
      → counts_of (tallied lib float o d t) ≡ paired lib float o d (counts_of t)
  tallied-paired none d t = refl
  tallied-paired (some before) d t = elim (Bool-cases (lt before d.hard)) [
    | inl e ↦ rw e refl
    | inr e ↦ elim (Bool-cases (lt d.hard before)) [
      | inl e' ↦ rw e (rw e' refl)
      | inr e' ↦ elim (Bool-cases (le (of_nat 1) d.hard)) [
        | inl e'' ↦ rw e (rw e' (rw e'' refl))
        | inr e'' ↦ rw e (rw e' (rw e'' refl))
      ]
    ]
  ]

  loops_agree :
      (prev : List (String × F)) (curr : List Diag) (t : Tally lib float)
      → counts_of (tally_loop lib float prev curr t) ≡ pair_loop lib float prev curr (counts_of t)
  unfolding tally_loop pair_loop
  loops_agree prev [] t = refl
  loops_agree prev (d ∷ curr) t =
      loops_agree prev curr (tallied lib float (lookup d.task prev) d t)
      ∙ ap (pair_loop lib float prev curr) (tallied-paired (lookup d.task prev) d t)

  -- The paired counts that a significance test is given are the improved and the regressed tasks of
  -- the longitudinal summary of the same two lists.
  pub paired_counts-categorize :
      (before after : List Diag)
      → paired_counts lib float before after ≡ (
        (categorize lib float before after).improved,
        (categorize lib float before after).regressed,
      )
  unfolding paired_counts categorize
  paired_counts-categorize before after = sym (
      loops_agree (hard_scores lib float before []) after
        (record { long = no_counts lib float; regressed = []; persistent = [] }))
