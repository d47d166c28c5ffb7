-- ===== src/Model.antt =====
-- internal/model/model.go: the mock model and the relay, the two bindings of the model seam.
use agentic_dev_harness.Shared.{String, ◌==◌, if◌then◌else◌, concat, [], ◌∷◌}
use agentic_dev_harness.Adh.Error.{Result, ok}
use agentic_dev_harness.Adh.Stage.{Stage, stage_text}
use agentic_dev_harness.Authority.{ModelClass, reasoning}

pub record Request : Type 0 where
  pub role : Stage
  pub prompt : String

pub record Response : Type 0 where
  pub text : String

-- `stage.Client`: what the stages need of a model.
pub record Client : Type 0 where
  pub complete : Request → Result Response
  pub model_class : ModelClass

-- `defaultClass`
unfoldable pub default_class : ModelClass → ModelClass
default_class ModelClass.unset = reasoning
default_class c = c

-- `Mock{Reply: reply, Class: class}` with its two methods
unfoldable pub mock : String → ModelClass → Client
unfolding default_class stage_text
mock reply class = record {
  complete = λ req. ok (record {
    text = if reply == "" then concat ("mock " ∷ stage_text req.role ∷ " output" ∷ []) else reply;
  });
  model_class = default_class class;
}

-- `Relay{Response: response, Class: class}` with its two methods
unfoldable pub relay : String → ModelClass → Client
unfolding default_class
relay response class = record {
  complete = λ req. ok (record { text = response });
  model_class = default_class class;
}
