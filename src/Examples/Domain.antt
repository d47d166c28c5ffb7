-- ===== src/Examples/Domain.antt =====
-- The theorems about the domain, the gates and the stages, at small inputs.
use agentic_dev_harness.Shared.{◌≡◌, refl, inl, String}
use agentic_dev_harness.Adh.Error.{Error, coded, conflict}
use agentic_dev_harness.Adh.Stage.{strategy, open_}
use agentic_dev_harness.Adh.Arc.{Arc}
use agentic_dev_harness.Model.{Request, Response}
use agentic_dev_harness.Stages.{apply}
use agentic_dev_harness.Metrics.{add, classify_history}
use agentic_dev_harness.Metrics.Laws.{model_step, apply-classify_history}
use agentic_dev_harness.Examples.Data.{sample_arc}

abbrev phrase : String
phrase = "arc-0001"

abbrev strategist : Arc String
strategist = sample_arc strategy open_

abbrev asked : Request
asked = record { role = strategy; prompt = "fix the sum" }

abbrev answered : Arc String
unfolding apply
answered = apply strategist (record { text = "mock strategy output" })

abbrev inner : Error
inner = coded conflict "no such arc"

abbrev complete : String
complete = "Status: done ## Context ## Decision ## Consequences ### Easier ### Harder"

abbrev planned : Response
planned = record { text = "closed: the plan" }

apply-classify_history_example :
    classify_history (apply strategist planned).history
    ≡ add (classify_history strategist.history) model_step
apply-classify_history_example =
    apply-classify_history strategist planned model_step (inl (inl refl, refl))
