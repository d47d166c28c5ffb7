-- ===== src/Metrics.antt =====
-- internal/metrics/metrics.go: what the closed arcs cost, and which of an arc's steps took a model.
-- `MetricRecord` of Commands.World is its `Record`; floats are a parameter.
pub mod Laws
use agentic_dev_harness.Shared.{
  ℕ, Bool, true, false, List, [], ◌∷◌, String, if◌then◌else◌, any, cut_prefix, Option, none, some,
  eqb, ◌+◌,
}
use agentic_dev_harness.Float.{Float}
use agentic_dev_harness.Commands.World.{MetricRecord}

pub record StepClass : Type 0 where
  pub deterministic : ℕ
  pub model : ℕ

-- `Add`
unfoldable pub add : StepClass → StepClass → StepClass
add c other = record {
  deterministic = c.deterministic + other.deterministic;
  model = c.model + other.model;
}

abbrev is_some : Option String → Bool
is_some none = false
is_some (some rest) = true

-- `strings.HasPrefix`
unfoldable pub has_prefix : String → String → Bool
unfolding cut_prefix
has_prefix line prefix = is_some (cut_prefix prefix line)

-- `hasAnyPrefix`
unfoldable pub has_any_prefix : String → List String → Bool
unfolding has_prefix
has_any_prefix line prefixes = any (λ prefix. has_prefix line prefix) prefixes

abbrev pub model_stages : List String
model_stages = "strategy:" ∷ "execution:" ∷ "critic:" ∷ []

abbrev pub deterministic_steps : List String
deterministic_steps =
    "evaluation:" ∷ "committed" ∷ "closed" ∷ "gate" ∷ "reverted" ∷ "requalify" ∷ []

-- The loop's body of `ClassifyHistory`.
unfoldable pub classify_line : StepClass → String → StepClass
unfolding has_any_prefix
classify_line c line =
    if has_any_prefix line model_stages
    then record c { model = c.model + 1 }
    else if has_any_prefix line deterministic_steps
    then record c { deterministic = c.deterministic + 1 }
    else c

unfoldable pub classify_from : StepClass → List String → StepClass
unfolding classify_line
classify_from c [] = c
classify_from c (line ∷ lines) = classify_from (classify_line c line) lines

-- `ClassifyHistory`
unfoldable pub classify_history : List String → StepClass
unfolding classify_from
classify_history history = classify_from (record { deterministic = 0; model = 0 }) history

-- The sums of `Summary`; `attention_per_accept` is its quotient.
pub record Sums : Type 0 where
  pub arcs : ℕ
  pub accepted : ℕ
  pub attention_minutes : ℕ
  pub compute_tokens : ℕ

-- The loop's body of `Summarize`.
abbrev sum_record : Sums → MetricRecord → Sums
sum_record s r = record {
  arcs = s.arcs + 1;
  accepted = if r.accepted then s.accepted + 1 else s.accepted;
  attention_minutes = s.attention_minutes + r.attention_minutes;
  compute_tokens = s.compute_tokens + r.compute_tokens;
}

unfoldable pub sum_records : Sums → List MetricRecord → Sums
sum_records s [] = s
sum_records s (r ∷ records) = sum_records (sum_record s r) records

module _ (float : Float) where
  open float use {F, zero, of_nat, sub, div}

  -- `Ratio`
  unfoldable pub ratio : StepClass → F
  ratio c =
      let total = c.deterministic + c.model in
      if eqb total 0 then zero else div (of_nat c.deterministic) (of_nat total)

  pub record Summary : Type 0 where
    pub sums : Sums
    pub attention_per_accept : F

  abbrev denom : ℕ → ℕ
  denom accepted = if eqb accepted 0 then 1 else accepted

  -- `Summarize`
  unfoldable pub summarize : List MetricRecord → Summary
  unfolding sum_records
  summarize records =
      let s =
        sum_records (record { arcs = 0; accepted = 0; attention_minutes = 0; compute_tokens = 0 })
          records in
      record {
        sums = s;
        attention_per_accept = div (of_nat s.attention_minutes) (of_nat (denom s.accepted));
      }

  -- `AttentionDelta`
  unfoldable pub attention_delta : Summary → Summary → F
  attention_delta s prev = sub s.attention_per_accept prev.attention_per_accept
