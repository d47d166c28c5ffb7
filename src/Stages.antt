-- ===== src/Stages.antt =====
-- internal/stage/stage.go: one turn of an arc through the model, and when the next may start by
-- itself. Rendering a prompt is a parameter, since it runs Go templates; `G` is the grounding.
pub mod Laws
use agentic_dev_harness.Shared.{
  ◌≡◌, Bool, true, false, Option, none, some, List, [], ◌∷◌, ◌++◌, String, concat, leb,
}
use agentic_dev_harness.Adh.Error.{Error, Result, ok, err, coded, context, invalid}
use agentic_dev_harness.Adh.Stage.{
  Stage, strategy, execution, critic, evaluation, ops, next_stage, stage_text, Resolution, change,
}
use agentic_dev_harness.Adh.Arc.{Arc}
use agentic_dev_harness.Authority.{Level, l2, JudgmentRoles, ModelClass, model_gate}
use agentic_dev_harness.Model.{Request, Response, Client}

-- `Prompter.Render`
abbrev pub Prompter : Type 0 → Type 0 → Type 0
Prompter U G = Arc U → Option G → Result String

abbrev launches : Option Stage → Level → Bool
launches none lvl = false
launches (some next) lvl = leb l2 lvl

-- `AutoAdvances`
unfoldable pub auto_advances : Stage → Level → Bool
unfolding next_stage
auto_advances ops lvl = false
auto_advances s lvl = launches (next_stage s) lvl

-- `fmt.Errorf("stage: %w", err)`
abbrev pub stage_error : Error → Error
stage_error e = context "stage" e

abbrev pub gated : Option Error → Result Request → Result Request
gated none rest = rest
gated (some e) rest = err (stage_error e)

abbrev pub request_at : Stage → Result Request → Result Request
request_at ops rest = err (coded invalid "ops ships via close, not a model step")
request_at _ rest = rest

abbrev pub prompted : Stage → Result String → Result Request
prompted role (ok prompt) = ok (record { role = role; prompt = prompt })
prompted role (err e) = err (stage_error e)

module _ {U G : Type 0} where
  -- `Request`
  unfoldable pub request :
      Prompter U G → Arc U → Option G → ModelClass → JudgmentRoles → Result Request
  request prompter arc ground_ class judgment =
      request_at arc.stage
        (gated (model_gate arc.stage class judgment) (prompted arc.stage (prompter arc ground_)))

-- The default of `Apply` for a strategy turn that named no resolution.
abbrev settle : Stage → Resolution → Resolution
settle strategy Resolution.unset = change
settle _ r = r

abbrev pub stage_or : Option Stage → Stage → Stage
stage_or none s = s
stage_or (some next) s = next

module _ {U : Type 0} where
  -- `Apply`
  unfoldable pub apply : Arc U → Response → Arc U
  unfolding next_stage stage_text
  apply arc resp = record arc {
    history = arc.history ++ concat (stage_text arc.stage ∷ ": " ∷ resp.text ∷ []) ∷ [];
    resolution = settle arc.stage arc.resolution;
    stage = stage_or (next_stage arc.stage) arc.stage;
  }

  abbrev pub finish : Arc U → Result Response → Result (Arc U)
  finish arc (ok resp) = ok (apply arc resp)
  finish arc (err e) = err (stage_error e)

  abbrev pub turn : Client → Arc U → Result Request → Result (Arc U)
  turn client arc (ok req) = finish arc (client.complete req)
  turn client arc (err e) = err e

module _ {U G : Type 0} where
  -- `Execute`: on an error the arc is as it was.
  unfoldable pub execute : Client → Prompter U G → Arc U → JudgmentRoles → Result (Arc U)
  unfolding request apply
  execute client prompter arc judgment =
      turn client arc (request prompter arc none client.model_class judgment)
