-- ===== src/Critic/Precision.antt =====
-- internal/critic/precision.go: what each review's verdict confirmed and did not.
use agentic_dev_harness.Shared.{
  Bool, ◌&&◌, List, [], ◌∷◌, map, String, is_empty, ℕ, ◌+◌, ltb, not, filter, sort_strings, add_all,
}
use agentic_dev_harness.Adh.Finding.{kind_text}
use agentic_dev_harness.Critic.Disposition.{Verdict}
use agentic_dev_harness.Critic.Coverage.{occurrences}
use agentic_dev_harness.Float.{Float}

pub record PrecisionEntry : Type 0 where
  pub arc : String
  pub confirmed : List String
  pub unconfirmed : List String

-- `VerdictKinds`
unfoldable pub verdict_kinds : Verdict → List String × List String
unfolding kind_text
verdict_kinds v =
    (map (λ f. kind_text f.kind) v.confirmed, map (λ f. kind_text f.kind) v.unconfirmed)

-- The test with which `AppendPrecision` skips an entry.
unfoldable pub is_blank : PrecisionEntry → Bool
is_blank e = is_empty e.confirmed && is_empty e.unconfirmed

-- The two tallies of a kind over the log.
unfoldable pub confirmed_count : String → List PrecisionEntry → ℕ
unfolding occurrences
confirmed_count kind [] = 0
confirmed_count kind (e ∷ es) = occurrences kind e.confirmed + confirmed_count kind es

unfoldable pub unconfirmed_count : String → List PrecisionEntry → ℕ
unfolding occurrences
unconfirmed_count kind [] = 0
unconfirmed_count kind (e ∷ es) = occurrences kind e.unconfirmed + unconfirmed_count kind es

abbrev kinds_seen : List PrecisionEntry → List String → List String
kinds_seen [] seen = seen
kinds_seen (e ∷ es) seen = kinds_seen es (add_all e.unconfirmed (add_all e.confirmed seen))

module _ (float : Float) where
  open float use {F, of_nat, div, lt}

  abbrev too_noisy : List PrecisionEntry → ℕ → F → String → Bool
  too_noisy entries min_samples max_rate kind =
      let wrong = unconfirmed_count kind entries in
      let total = confirmed_count kind entries + wrong in
      not (ltb total min_samples) && lt max_rate (div (of_nat wrong) (of_nat total))

  -- `NoisyKinds`
  unfoldable pub noisy_kinds : List PrecisionEntry → ℕ → F → List String
  unfolding confirmed_count unconfirmed_count
  noisy_kinds entries min_samples max_rate =
      sort_strings (filter (too_noisy entries min_samples max_rate) (kinds_seen entries []))
