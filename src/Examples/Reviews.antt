-- ===== src/Examples/Reviews.antt =====
-- The theorems about the critic and the evaluation, at one review.
use mathlib.Core.List.{Perm, Memᴰ}
use agentic_dev_harness.Shared.{
  ℕ, ◌≡◌, refl, ◌≢◌, All, ◌↔◌, ◌⊎◌, ◌≤◌, ◌<◌, true, false, List, [], ◌∷◌, ◌++◌, String,
}
use agentic_dev_harness.Adh.Error.{ok}
use agentic_dev_harness.Adh.Finding.{Finding, structural}
use agentic_dev_harness.Adh.Stage.{evaluation, open_, Resolution}
use agentic_dev_harness.Adh.Arc.{Arc}
use agentic_dev_harness.Critic.Disposition.{Adjudicated, dispose}
use agentic_dev_harness.Critic.Disposition.Laws.{
  was_confirmed, was_passed, was_unchecked, was_reserved, was_refused, picked, dispose-eq,
  dispose_partition,
}
use agentic_dev_harness.Critic.Reply.{Reply, parse_reply}
use agentic_dev_harness.Critic.Reply.Laws.{IsAccepted, parse_reply-critic}
use agentic_dev_harness.Evaluation.Decide.{
  decide, advance_to_ops, advance_with_reservation, return_to_execution, fail,
}
use agentic_dev_harness.Evaluation.Apply.{apply}
use agentic_dev_harness.Evaluation.Decided.{decide_cases}
use agentic_dev_harness.Evaluation.Effects.{MovedBy, disposed, logged, apply-healthy, apply-MovedBy}
use agentic_dev_harness.Failures.{healthy}
use agentic_dev_harness.Examples.Data.{bug, flaw, sample_arc, no_logs, result, confirming, decoder}

abbrev results : List (Adjudicated ℕ)
results = result bug true true ∷ result flaw false false ∷ []

dispose-eq_example : dispose results ≡ record {
  confirmed = picked was_confirmed results;
  unconfirmed = picked was_passed results;
  unchecked = picked was_unchecked results;
  reservations = picked was_reserved results;
  refused = picked was_refused results;
}
dispose-eq_example = dispose-eq results

dispose_partition_example :
    Perm
      ((dispose results).confirmed
        ++ ((dispose results).unconfirmed ++ (dispose results).unchecked))
      (bug ∷ flaw ∷ [])
dispose_partition_example = dispose_partition results

decide_cases_example :
    ((decide confirming 1 2 ≡ advance_to_ops)
      ↔ ((confirming.confirmed ≡ []) × (confirming.reservations ≡ [])))
    × ((decide confirming 1 2 ≡ advance_with_reservation)
        ↔ ((confirming.confirmed ≡ []) × (confirming.reservations ≢ [])))
    × ((decide confirming 1 2 ≡ return_to_execution) ↔ (
        (confirming.confirmed ≢ [])
        × All (λ f. f.class ≢ structural) confirming.confirmed
        × (1 < 2)))
    × ((decide confirming 1 2 ≡ fail) ↔ (
        (confirming.confirmed ≢ [])
        × (((f : Finding) × Memᴰ f confirming.confirmed × (f.class ≡ structural)) ⊎ (2 ≤ 1))))
decide_cases_example = decide_cases confirming 1 2

abbrev reviewed : Arc String
reviewed = sample_arc evaluation open_

apply-healthy_example :
    apply healthy reviewed confirming true 2 "2026-07" no_logs
    ≡ (ok (disposed reviewed confirming 2), logged reviewed confirming true "2026-07" no_logs)
apply-healthy_example = apply-healthy reviewed confirming true 2 "2026-07" no_logs

apply-MovedBy_example :
    MovedBy (decide confirming 0 2) reviewed (disposed reviewed confirming 2)
    × ((disposed reviewed confirming 2).findings ≡ [])
    × ((disposed reviewed confirming 2).unexamined ≡ [])
    × (0 ≤ 2 → (disposed reviewed confirming 2).reworks ≤ 2)
apply-MovedBy_example =
    apply-MovedBy healthy reviewed (disposed reviewed confirming 2) confirming true 2 "2026-07"
      no_logs (logged reviewed confirming true "2026-07" no_logs)
      (apply-healthy reviewed confirming true 2 "2026-07" no_logs)

abbrev review : Reply String
review = record {
  findings = bug ∷ [];
  resolution = Resolution.unset;
  text = "{findings}";
  unexamined = [];
}

parse_reply-critic_example :
    IsAccepted decoder (bug ∷ []) []
    × (review.text ≡ "{findings}")
    × (review.resolution ≡ Resolution.unset)
unfolding parse_reply
parse_reply-critic_example = parse_reply-critic decoder "{findings}" review refl
