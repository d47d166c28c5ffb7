-- ===== src/Consolidate/Scores/Counts.antt =====
-- What the longitudinal summary counts, described by the previous and the present score of each task.
use agentic_dev_harness.Shared.{
  ℕ, ◌+◌, ◌≡◌, refl, sym, ◌∙◌, ap, inl, inr, concat, Bool, true, false, not, ◌&&◌, Option, none,
  some, List, [], ◌∷◌, ◌++◌, map, String, filter, length, take, lookup, Bool-cases, arith,
}
use agentic_dev_harness.Float.{Float}
use agentic_dev_harness.Judge.{Library}
use agentic_dev_harness.Consolidate.Scores.{
  Diagnostic, Tally, hard_scores, tallied, tally_loop, line_cap, no_counts, categorize,
}

snoc : (xs : List String) (x : String) (ys : List String) → (xs ++ x ∷ []) ++ ys ≡ xs ++ (x ∷ ys)
snoc [] x ys = refl
snoc (y ∷ xs) x ys = ap (λ zs. y ∷ zs) (snoc xs x ys)

right_nil : (xs : List String) → xs ≡ xs ++ []
right_nil [] = refl
right_nil (x ∷ xs) = ap (λ zs. x ∷ zs) (right_nil xs)

one : Bool → ℕ
one true = 1
one false = 0

if_so : Bool → String → List String
if_so true line = line ∷ []
if_so false line = []

module _ (lib : Library) (float : Float) where
  open float use {F, lt, le, of_nat}

  abbrev Diag : Type 0
  Diag = Diagnostic lib float

  -- How a task's score compares with the previous one, which must be there.
  abbrev rose : Option F → F → Bool
  rose none after = false
  rose (some before) after = lt before after

  abbrev fell : Option F → F → Bool
  fell none after = false
  fell (some before) after = not (lt before after) && lt after before

  abbrev stayed : Option F → F → Bool
  stayed none after = false
  stayed (some before) after = not (lt before after) && not (lt after before)

  worse_line : Diag → String
  worse_line d = concat ("[regressed] " ∷ d.task ∷ [])

  stuck_line : Diag → String
  stuck_line d = concat ("[persistent-fail] " ∷ d.task ∷ [])

  -- What one round of the loop adds to its variables, by how the score of its task compares.
  abbrev IsRound : Option F → Diag → Tally lib float → Tally lib float → Type 0
  IsRound o d t t' =
      (t'.long.improved ≡ t.long.improved + one (rose o d.hard))
      × (t'.long.regressed ≡ t.long.regressed + one (fell o d.hard))
      × (t'.long.stable_success
          ≡ t.long.stable_success + one (stayed o d.hard && le (of_nat 1) d.hard))
      × (t'.long.persistent_fail
          ≡ t.long.persistent_fail + one (stayed o d.hard && not (le (of_nat 1) d.hard)))
      × (t'.regressed ≡ t.regressed ++ if_so (fell o d.hard) (worse_line d))
      × (t'.persistent
          ≡ t.persistent ++ if_so (stayed o d.hard && not (le (of_nat 1) d.hard)) (stuck_line d))

  tallied-IsRound :
      (o : Option F) (d : Diag) (t : Tally lib float) → IsRound o d t (tallied lib float o d t)
  unfolding one if_so worse_line stuck_line
  tallied-IsRound none d t =
      (omega arith, omega arith, omega arith, omega arith, right_nil _, right_nil _)
  tallied-IsRound (some before) d t = elim (Bool-cases (lt before d.hard)) [
    | inl e ↦ rw e (omega arith, omega arith, omega arith, omega arith, right_nil _, right_nil _)
    | inr e ↦ elim (Bool-cases (lt d.hard before)) [
      | inl e' ↦ rw (e, e') (omega arith, omega arith, omega arith, omega arith, refl, right_nil _)
      | inr e' ↦ elim (Bool-cases (le (of_nat 1) d.hard)) [
        | inl e'' ↦
            rw (e, e', e'')
              (omega arith, omega arith, omega arith, omega arith, right_nil _, right_nil _)
        | inr e'' ↦
            rw (e, e', e'') (omega arith, omega arith, omega arith, omega arith, right_nil _, refl)
      ]
    ]
  ]

  module _ (prev : List (String × F)) where
    abbrev pub has_improved : Diag → Bool
    has_improved d = rose (lookup d.task prev) d.hard

    abbrev pub has_regressed : Diag → Bool
    has_regressed d = fell (lookup d.task prev) d.hard

    abbrev pub succeeds_still : Diag → Bool
    succeeds_still d = stayed (lookup d.task prev) d.hard && le (of_nat 1) d.hard

    abbrev pub fails_still : Diag → Bool
    fails_still d = stayed (lookup d.task prev) d.hard && not (le (of_nat 1) d.hard)

    abbrev pub how_many : (Diag → Bool) → List Diag → ℕ
    how_many p curr = length (filter p curr)

    abbrev pub tagged : String → (Diag → Bool) → List Diag → List String
    tagged tag p curr = map (λ d. concat (tag ∷ d.task ∷ [])) (filter p curr)

    how_many-cons :
        (p : Diag → Bool) (d : Diag) (curr : List Diag)
        → how_many p (d ∷ curr) ≡ one (p d) + how_many p curr
    unfolding one
    how_many-cons p d curr = elim (Bool-cases (p d)) [
      | inl e ↦ rw e (omega arith)
      | inr e ↦ rw e (omega arith)
    ]

    tagged-cons :
        (tag : String) (p : Diag → Bool) (d : Diag) (curr : List Diag) (xs : List String)
        → (xs ++ if_so (p d) (concat (tag ∷ d.task ∷ []))) ++ tagged tag p curr
          ≡ xs ++ tagged tag p (d ∷ curr)
    unfolding if_so
    tagged-cons tag p d curr xs = elim (Bool-cases (p d)) [
      | inl e ↦ rw e (snoc xs _ _)
      | inr e ↦ rw e (ap (λ ys. ys ++ tagged tag p curr) (sym (right_nil xs)))
    ]

    -- What the loop adds to its variables.
    record IsCounted (curr : List Diag) (t t' : Tally lib float) : Type 0 where
      better : t'.long.improved ≡ t.long.improved + how_many has_improved curr
      worse : t'.long.regressed ≡ t.long.regressed + how_many has_regressed curr
      stable : t'.long.stable_success ≡ t.long.stable_success + how_many succeeds_still curr
      stuck : t'.long.persistent_fail ≡ t.long.persistent_fail + how_many fails_still curr
      worse_lines : t'.regressed ≡ t.regressed ++ tagged "[regressed] " has_regressed curr
      stuck_lines : t'.persistent ≡ t.persistent ++ tagged "[persistent-fail] " fails_still curr

    tally_loop-IsCounted :
        (curr : List Diag) (t : Tally lib float)
        → IsCounted curr t (tally_loop lib float prev curr t)
    unfolding tally_loop worse_line stuck_line
    tally_loop-IsCounted [] t = record {
      better = omega arith;
      worse = omega arith;
      stable = omega arith;
      stuck = omega arith;
      worse_lines = right_nil t.regressed;
      stuck_lines = right_nil t.persistent;
    }
    tally_loop-IsCounted (d ∷ curr) t =
        let ih = tally_loop-IsCounted curr (tallied lib float (lookup d.task prev) d t) in
        let (better, worse, stable, stuck, worse_lines, stuck_lines) =
          tallied-IsRound (lookup d.task prev) d t in
        record {
          better = omega (arith, ih.better, better, how_many-cons has_improved d curr);
          worse = omega (arith, ih.worse, worse, how_many-cons has_regressed d curr);
          stable = omega (arith, ih.stable, stable, how_many-cons succeeds_still d curr);
          stuck = omega (arith, ih.stuck, stuck, how_many-cons fails_still d curr);
          worse_lines =
              ih.worse_lines
              ∙ ap (λ xs. xs ++ tagged "[regressed] " has_regressed curr) worse_lines
              ∙ tagged-cons "[regressed] " has_regressed d curr t.regressed;
          stuck_lines =
              ih.stuck_lines
              ∙ ap (λ xs. xs ++ tagged "[persistent-fail] " fails_still curr) stuck_lines
              ∙ tagged-cons "[persistent-fail] " fails_still d curr t.persistent;
        }

  -- The summary counts the tasks that the previous artifact was scored on too: those whose score
  -- rose, those whose score fell, and of those whose score did neither the ones of at least 1 and the
  -- others. Its lines name the tasks that fell and, behind them, those that fail still, in the order
  -- of the present scores, but eight of them at most.
  pub categorize_counts :
      (before after : List Diag)
      → let prev = hard_scores lib float before [] in
        let long = categorize lib float before after in
        (long.improved ≡ how_many prev (has_improved prev) after)
        × (long.regressed ≡ how_many prev (has_regressed prev) after)
        × (long.stable_success ≡ how_many prev (succeeds_still prev) after)
        × (long.persistent_fail ≡ how_many prev (fails_still prev) after)
        × (long.lines
            ≡ take line_cap (
                tagged prev "[regressed] " (has_regressed prev) after
                ++ tagged prev "[persistent-fail] " (fails_still prev) after))
  unfolding categorize
  categorize_counts before after =
      let start : Tally lib float = record {
        long = no_counts lib float;
        regressed = [];
        persistent = [];
      } in
      let done = tally_loop-IsCounted (hard_scores lib float before []) after start in
      (
        omega (arith, done.better),
        omega (arith, done.worse),
        omega (arith, done.stable),
        omega (arith, done.stuck),
        λ i. take line_cap (done.worse_lines i ++ done.stuck_lines i),
      )
