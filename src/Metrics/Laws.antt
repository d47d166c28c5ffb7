-- ===== src/Metrics/Laws.antt =====
-- The classes of the lines that a turn of a stage writes.
use Prim.Native.String
use text.Mathlib.TextLemmas.{append_assoc}
use agentic_dev_harness.Shared.{
  true, false, clash, cut_prefix-append, cut_prefix-clash, ◌≡◌, refl, sym, ◌∙◌, ap, ◌⊎◌, inl, inr,
  List, [], ◌∷◌, ◌++◌, String, concat, arith,
}
use agentic_dev_harness.Adh.Stage.{Stage, strategy, execution, critic, evaluation, stage_text}
use agentic_dev_harness.Adh.Arc.{Arc}
use agentic_dev_harness.Model.{Response}
use agentic_dev_harness.Stages.{apply}
use agentic_dev_harness.Metrics.{
  StepClass, add, classify_line, classify_from, classify_history, has_prefix, has_any_prefix,
  model_stages, deterministic_steps,
}

classify_from-++ :
    (c : StepClass) (xs ys : List String)
    → classify_from c (xs ++ ys) ≡ classify_from (classify_from c xs) ys
unfolding classify_from
classify_from-++ c [] ys = refl
classify_from-++ c (x ∷ xs) ys = classify_from-++ (classify_line c x) xs ys

classify_history-snoc :
    (xs : List String) (line : String)
    → classify_history (xs ++ line ∷ []) ≡ classify_line (classify_history xs) line
unfolding classify_history classify_from
classify_history-snoc xs line =
    classify_from-++ (record { deterministic = 0; model = 0 }) xs (line ∷ [])

-- The line of a turn: `<stage>: <reply>`.
abbrev turn_line : Stage → String → String
turn_line s text = concat (stage_text s ∷ ": " ∷ text ∷ [])

abbrev pub model_step : StepClass
model_step = record { deterministic = 0; model = 1 }

abbrev pub deterministic_step : StepClass
deterministic_step = record { deterministic = 1; model = 0 }

-- What a line begins with decides its prefixes.
has_prefix-append : (p t : String) → has_prefix (String.◌++◌ p t) p ≡ true
unfolding has_prefix
has_prefix-append p t = rw (cut_prefix-append p t) refl

has_prefix-clash : (p l t : String) → clash p l ≡ true → has_prefix (String.◌++◌ l t) p ≡ false
unfolding has_prefix
has_prefix-clash p l t h = rw (cut_prefix-clash p l t h) refl

classify_line-model :
    (c : StepClass) (line : String)
    → has_any_prefix line model_stages ≡ true
    → classify_line c line ≡ add c model_step
unfolding classify_line add
classify_line-model c line h = rw h (ground arith)

classify_line-deterministic :
    (c : StepClass) (line : String)
    → has_any_prefix line model_stages ≡ false
    → has_any_prefix line deterministic_steps ≡ true
    → classify_line c line ≡ add c deterministic_step
unfolding classify_line add
classify_line-deterministic c line no_model h = rw no_model (rw h (ground arith))

strategy_line : (t : String) → has_any_prefix (String.◌++◌ "strategy:" t) model_stages ≡ true
unfolding has_any_prefix
strategy_line t = rw (has_prefix-append "strategy:" t) refl

execution_line : (t : String) → has_any_prefix (String.◌++◌ "execution:" t) model_stages ≡ true
unfolding has_any_prefix clash
execution_line t =
    rw (has_prefix-clash "strategy:" "execution:" t refl)
      (rw (has_prefix-append "execution:" t) refl)

critic_line : (t : String) → has_any_prefix (String.◌++◌ "critic:" t) model_stages ≡ true
unfolding has_any_prefix clash
critic_line t =
    rw (has_prefix-clash "strategy:" "critic:" t refl) (
      rw (has_prefix-clash "execution:" "critic:" t refl) (rw (has_prefix-append "critic:" t) refl))

evaluation_line_no_model :
    (t : String) → has_any_prefix (String.◌++◌ "evaluation:" t) model_stages ≡ false
unfolding has_any_prefix clash
evaluation_line_no_model t = rw (has_prefix-clash "strategy:" "evaluation:" t refl) (
    rw (has_prefix-clash "execution:" "evaluation:" t refl)
      (rw (has_prefix-clash "critic:" "evaluation:" t refl) refl))

evaluation_line :
    (t : String) → has_any_prefix (String.◌++◌ "evaluation:" t) deterministic_steps ≡ true
unfolding has_any_prefix
evaluation_line t = rw (has_prefix-append "evaluation:" t) refl

-- The line of a turn, with the colon on its prefix.
regroup :
    (s t : String)
    → String.◌++◌ s (String.◌++◌ ": " t) ≡ String.◌++◌ (String.◌++◌ s ":") (String.◌++◌ " " t)
regroup s t =
    sym (append_assoc s ":" (String.◌++◌ " " t) ∙ ap (String.◌++◌ s) (sym (append_assoc ":" " " t)))

-- How a turn at a stage is to be counted.
abbrev pub IsTurn : Stage → StepClass → Type 0
IsTurn s taken =
    ((s ≡ strategy ⊎ (s ≡ execution ⊎ s ≡ critic)) × taken ≡ model_step)
    ⊎ (s ≡ evaluation × taken ≡ deterministic_step)

module _ {U : Type 0} (arc : Arc U) (resp : Response) where
  abbrev tail : String
  tail = String.◌++◌ " " (String.◌++◌ resp.text "")

  model_turn :
      (s : Stage) (stem : String)
      → arc.stage ≡ s
      → stage_text s ≡ stem
      → has_any_prefix (String.◌++◌ (String.◌++◌ stem ":") tail) model_stages ≡ true
      → classify_history (apply arc resp).history ≡ add (classify_history arc.history) model_step
  unfolding apply
  model_turn s stem at named h =
      classify_history-snoc arc.history (turn_line arc.stage resp.text)
      ∙ classify_line-model (classify_history arc.history) (turn_line arc.stage resp.text)
          (rw at (rw named (rw (regroup stem (String.◌++◌ resp.text "")) h)))

  evaluation_turn :
      arc.stage ≡ evaluation
      → classify_history (apply arc resp).history
        ≡ add (classify_history arc.history) deterministic_step
  unfolding apply stage_text
  evaluation_turn at =
      classify_history-snoc arc.history (turn_line arc.stage resp.text)
      ∙ classify_line-deterministic (classify_history arc.history) (turn_line arc.stage resp.text)
          (rw at
            (rw (regroup "evaluation" (String.◌++◌ resp.text "")) (evaluation_line_no_model tail)))
          (rw at (rw (regroup "evaluation" (String.◌++◌ resp.text "")) (evaluation_line tail)))

  -- A turn of strategy, execution or critic adds one model step to the classes of the history, and
  -- a turn of evaluation one deterministic step, whatever the reply.
  pub apply-classify_history :
      (taken : StepClass)
      → IsTurn arc.stage taken
      → classify_history (apply arc resp).history ≡ add (classify_history arc.history) taken
  unfolding stage_text
  apply-classify_history taken (inl (inl e, t)) =
      rw t (model_turn strategy "strategy" e refl (strategy_line tail))
  apply-classify_history taken (inl (inr (inl e), t)) =
      rw t (model_turn execution "execution" e refl (execution_line tail))
  apply-classify_history taken (inl (inr (inr e), t)) =
      rw t (model_turn critic "critic" e refl (critic_line tail))
  apply-classify_history taken (inr (e, t)) = rw t (evaluation_turn e)
