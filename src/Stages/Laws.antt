-- ===== src/Stages/Laws.antt =====
-- What one turn of internal/stage promises.
use agentic_dev_harness.Shared.{◌≡◌, refl, ◌↔◌, ◌≢◌, ◌≤◌, true, Option, none, String, arith}
use agentic_dev_harness.Adh.Error.{Error, Result, ok, err}
use agentic_dev_harness.Adh.Stage.{Stage, strategy, execution, critic, evaluation, ops, next_stage}
use agentic_dev_harness.Adh.Arc.{Arc}
use agentic_dev_harness.Authority.{Level, l2, JudgmentRoles, ModelClass, model_gate}
use agentic_dev_harness.Model.{Request, Response, Client}
use agentic_dev_harness.Stages.{
  Prompter, auto_advances, request, request_at, gated, prompted, apply, finish, turn, execute,
}

-- The relay launches the next stage exactly from level L2 on, and only out of the four stages that
-- have a next one: never out of ops, nor out of an unknown stage.
auto_advances_iff :
    (s : Stage) (lvl : Level) → (auto_advances s lvl ≡ true) ↔ ((next_stage s ≢ none) × (l2 ≤ lvl))
unfolding auto_advances next_stage
auto_advances_iff strategy lvl = (λ h. (λ e. cc, ground arith), λ h. ground arith)
auto_advances_iff execution lvl = (λ h. (λ e. cc, ground arith), λ h. ground arith)
auto_advances_iff critic lvl = (λ h. (λ e. cc, ground arith), λ h. ground arith)
auto_advances_iff evaluation lvl = (λ h. (λ e. cc, ground arith), λ h. ground arith)
auto_advances_iff ops lvl = (λ h. cc, λ h. absurd (h.0 refl))
auto_advances_iff (Stage.other s) lvl = (λ h. cc, λ h. absurd (h.0 refl))

-- What a stage other than ops asks of its prompt, read off a built request.
gated_inv :
    (s : Stage) (gate : Option Error) (prompt : Result String) (req : Request)
    → request_at s (gated gate (prompted s prompt)) ≡ ok req
    → (s ≢ ops) × (gate ≡ none) × (prompt ≡ ok req.prompt) × (req.role ≡ s)
gated_inv s gate prompt req h = ground arith

module _ {U : Type 0} (arc arc' : Arc U) where
  finish_inv :
      (answer : Result Response)
      → finish arc answer ≡ ok arc'
      → (resp : Response) × (answer ≡ ok resp) × (arc' ≡ apply arc resp)
  finish_inv (ok resp) h = (resp, refl, cc)
  finish_inv (err e) h = cc

  turn_inv :
      (client : Client) (built : Result Request)
      → turn client arc built ≡ ok arc'
      → (req : Request) × (resp : Response) × (built ≡ ok req)
        × (client.complete req ≡ ok resp)
        × (arc' ≡ apply arc resp)
  turn_inv client (ok req) h =
      let (resp, answered, e) = finish_inv (client.complete req) h in (req, resp, refl, answered, e)
  turn_inv client (err e) h = cc

module _ {U G : Type 0} (prompter : Prompter U G) (arc : Arc U) (judgment : JudgmentRoles) where
  -- A request is built only from a rendered prompt, at a stage other than ops, and only when the
  -- model-gate passed; its role is the stage of the arc.
  pub request-ok :
      (ground_ : Option G) (class : ModelClass) (req : Request)
      → request prompter arc ground_ class judgment ≡ ok req
      → (arc.stage ≢ ops)
        × (model_gate arc.stage class judgment ≡ none)
        × (prompter arc ground_ ≡ ok req.prompt)
        × (req.role ≡ arc.stage)
  unfolding request
  request-ok ground_ class req h =
      gated_inv arc.stage (model_gate arc.stage class judgment) (prompter arc ground_) req h

  -- A turn that succeeds left a stage other than ops, passed the model-gate, and applied what the
  -- model answered to the prompt rendered for the arc.
  pub execute-ok :
      (client : Client) (arc' : Arc U)
      → execute client prompter arc judgment ≡ ok arc'
      → (arc.stage ≢ ops)
        × (model_gate arc.stage client.model_class judgment ≡ none)
        × ((req : Request) × (resp : Response) × (prompter arc none ≡ ok req.prompt)
            × (client.complete req ≡ ok resp)
            × (arc' ≡ apply arc resp))
  unfolding execute
  execute-ok client arc' h =
      let (req, resp, built, answered, e) =
        turn_inv arc arc' client (request prompter arc none client.model_class judgment) h in
      let (not_ops, gate, prompt, role) = request-ok none client.model_class req built in
      (not_ops, gate, (req, resp, prompt, answered, e))
