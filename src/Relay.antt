-- ===== src/Relay.antt =====
-- internal/relay/relay.go: a stage's prompt is parked on the arc, and a later call validates the
-- operator's reply and moves the arc on. An error leaves no arc behind: neither caller saves one.
pub mod Laws
use agentic_dev_harness.Shared.{
  Bool, true, false, not, ◌&&◌, Option, none, some, List, [], ◌∷◌, map, String, ◌==◌, if◌then◌else◌,
}
use agentic_dev_harness.Adh.Error.{Error, Result, ok, err, ◌>>=◌, wrap}
use agentic_dev_harness.Adh.Stage.{Stage, strategy, critic, Resolution, resolution_text, same_stage}
use agentic_dev_harness.Adh.Arc.{Arc, Pending}
use agentic_dev_harness.Authority.{JudgmentRoles, ModelClass}
use agentic_dev_harness.Model.{Request, relay}
use agentic_dev_harness.Stages.{Prompter, request, execute}
use agentic_dev_harness.Context.Freshness.{ContextUnit}
use agentic_dev_harness.Critic.Grounding.{
  Withheld, Inputs, Grounding, Loads, has_grounding, at_critic, for_stage,
}
use agentic_dev_harness.Critic.Reply.{Decoder, Reply, parse_reply}

-- `Outcome`, by its kind
pub data Relayed : Type 0 where
  awaiting : String → Bool → List Withheld → Relayed
  gap : Relayed
  advanced : Relayed

abbrev pub wrapped {ℓ} : {A : Type ℓ} → String → Result A → Result A
wrapped op (ok a) = ok a
wrapped op (err e) = err (wrap op e)

-- `contextIDs`
unfoldable pub context_ids : List ContextUnit → List String
context_ids units = map (λ u. u.id) units

abbrev is_strategy : Stage → Bool
is_strategy strategy = true
is_strategy _ = false

-- A turn of the stage is parked.
abbrev pub has_turn : Option Pending → Stage → Bool
has_turn none stage = false
has_turn (some p) stage = same_stage p.stage stage

module _ {U : Type 0} where
  abbrev pub turn_for : Option Pending → Arc U → Result (Arc U × Relayed) → Result (Arc U × Relayed)
  turn_for none arc rest = rest
  turn_for (some p) arc rest =
      if same_stage p.stage arc.stage then ok (arc, awaiting p.prompt false []) else rest

module _ {U T P : Type 0} where
  -- The arc and the outcome of a new turn.
  abbrev pub parked : Arc U → Grounding U T P → String → Arc U × Relayed
  parked arc g prompt = (
    record arc {
      pending = some (record { stage = arc.stage; prompt = prompt });
      context = context_ids g.context;
    },
    awaiting prompt (at_critic arc.stage && not (has_grounding g)) g.withheld,
  )

  abbrev pub asked :
      Arc U
      → Prompter U (Grounding U T P)
      → ModelClass
      → JudgmentRoles
      → Grounding U T P × Bool
      → Result (Arc U × Relayed)
  asked arc prompter class judgment (g, is_gap) =
      if is_gap
      then ok (arc, gap)
      else (wrapped "relay.Emit" (request prompter arc (some g) class judgment) >>= λ req.
          ok (parked arc g req.prompt))

  abbrev pub new_turn :
      Loads P
      → Arc U
      → Inputs U T
      → Prompter U (Grounding U T P)
      → ModelClass
      → JudgmentRoles
      → Result (Arc U × Relayed)
  new_turn loads arc in_ prompter class judgment =
      wrapped "relay.Emit" (for_stage loads arc in_) >>= λ found.
      asked arc prompter class judgment found

  -- `Emit`
  unfoldable pub emit :
      Loads P
      → Arc U
      → Inputs U T
      → Prompter U (Grounding U T P)
      → ModelClass
      → JudgmentRoles
      → Result (Arc U × Relayed)
  unfolding for_stage request has_grounding context_ids same_stage
  emit loads arc in_ prompter class judgment =
      turn_for arc.pending arc (new_turn loads arc in_ prompter class judgment)

module _ {U : Type 0} where
  abbrev pub chooses : Arc U → Reply U → Bool
  chooses arc reply = is_strategy arc.stage && not (resolution_text reply.resolution == "")

  -- The resolution that a strategy reply chose.
  abbrev pub chosen : Arc U → Reply U → Arc U
  chosen arc reply = if chooses arc reply then record arc { resolution = reply.resolution } else arc

  -- What the turn leaves on the arc that it moved.
  abbrev pub recorded : Bool → Reply U → Arc U → Arc U
  recorded was_critic reply arc =
      let arc' : Arc U =
        if was_critic
        then record arc { findings = reply.findings; unexamined = reply.unexamined }
        else arc in
      record arc' { pending = none }

module _ {U G : Type 0} where
  -- `Resume`
  unfoldable pub resume : Decoder U → Arc U → String → Prompter U G → JudgmentRoles → Result (Arc U)
  unfolding parse_reply execute relay resolution_text
  resume decoder arc reply_text prompter judgment =
      wrapped "relay.Resume" (parse_reply decoder arc.stage reply_text) >>= λ reply.
      (wrapped "relay.Resume"
          (execute (relay reply.text ModelClass.unset) prompter (chosen arc reply) judgment)
        >>= λ arc'. ok (recorded (at_critic arc.stage) reply arc'))
