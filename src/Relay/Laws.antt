-- ===== src/Relay/Laws.antt =====
-- What parking a prompt and applying a reply promise.
use mathlib.Core.Path.{subst}
use agentic_dev_harness.Shared.{
  ◌≡◌, refl, sym, ap, ◌∙◌, ◌≢◌, ◌⊎◌, inl, inr, Bool, true, false, not, ◌&&◌, Option, none, some, [],
  ◌∷◌, ◌++◌, String, concat, Bool-cases, if◌then◌else◌,
}
use agentic_dev_harness.Adh.Error.{Result, ok, err, ok_inv, ok_injective, ◌>>=◌}
use agentic_dev_harness.Adh.Stage.{ops, next_stage, stage_text, same_stage}
use agentic_dev_harness.Adh.Arc.{Arc, Pending}
use agentic_dev_harness.Authority.{JudgmentRoles, ModelClass, model_gate, reasoning}
use agentic_dev_harness.Model.{relay, default_class}
use agentic_dev_harness.Stages.{Prompter, request, execute, apply, stage_or}
use agentic_dev_harness.Stages.Laws.{request-ok, execute-ok}
use agentic_dev_harness.Critic.Grounding.{
  Inputs, Grounding, Loads, has_grounding, at_critic, for_stage,
}
use agentic_dev_harness.Critic.Reply.{Decoder, Reply, parse_reply}
use agentic_dev_harness.Relay.{
  has_turn, Relayed, awaiting, gap, wrapped, context_ids, parked, asked, new_turn, turn_for, emit,
  chosen, chooses, recorded, resume,
}

wrapped_inv {ℓ} : {A : Type ℓ} (op : String) (r : Result A) (a : A) → wrapped op r ≡ ok a → r ≡ ok a
wrapped_inv op (ok b) a h = h
wrapped_inv op (err e) a h = cc

module _ {U : Type 0} (arc arc' : Arc U) (out : Relayed) (rest : Result (Arc U × Relayed)) where
  -- An open turn of the stage, or the rest of `Emit`.
  turn_for_inv :
      (pending : Option Pending)
      → turn_for pending arc rest ≡ ok (arc', out)
      → ((p : Pending) × (pending ≡ some p)
          × (same_stage p.stage arc.stage ≡ true)
          × (arc' ≡ arc)
          × (out ≡ awaiting p.prompt false []))
        ⊎ ((has_turn pending arc.stage ≡ false) × (rest ≡ ok (arc', out)))
  turn_for_inv none h = inr (refl, h)
  turn_for_inv (some p) h = elim (Bool-cases (same_stage p.stage arc.stage)) [
    | inl same ↦
        let e = ok_injective (rw same at h) in
        inl (p, refl, same, sym (ap (λ x. x.0) e), sym (ap (λ x. x.1) e))
    | inr other ↦ inr (other, rw other at h)
  ]

module _ {U T P : Type 0} (loads : Loads P) (arc : Arc U) (in_ : Inputs U T)
    (prompter : Prompter U (Grounding U T P)) (class : ModelClass) (judgment : JudgmentRoles) where
  -- A new turn: the prompt was rendered for the grounding, behind the model-gate.
  record IsNewTurn (arc' : Arc U) (out : Relayed) : Type 0 where
    grounding : Grounding U T P
    prompt : String
    grounded_ : for_stage loads arc in_ ≡ ok (grounding, false)
    not_ops : arc.stage ≢ ops
    gate : model_gate arc.stage class judgment ≡ none
    rendered : prompter arc (some grounding) ≡ ok prompt
    outcome : (arc', out) ≡ parked arc grounding prompt

  asked_inv :
      (g : Grounding U T P) (is_gap : Bool) (arc' : Arc U) (out : Relayed)
      → for_stage loads arc in_ ≡ ok (g, is_gap)
      → asked arc prompter class judgment (g, is_gap) ≡ ok (arc', out)
      → ((arc' ≡ arc) × (out ≡ gap) × (is_gap ≡ true)) ⊎ IsNewTurn arc' out
  asked_inv g true arc' out found h =
      let e = ok_injective h in inl (sym (ap (λ x. x.0) e), sym (ap (λ x. x.1) e), refl)
  asked_inv g false arc' out found h =
      let (req, h₁, h₂) =
        ok_inv (wrapped "relay.Emit" (request prompter arc (some g) class judgment))
          (λ req. ok (parked arc g req.prompt)) (arc', out) h in
      let (not_ops_, gate_, prompt_, role) =
        request-ok prompter arc judgment (some g) class req (wrapped_inv "relay.Emit" _ req h₁) in
      inr (record {
        grounding = g;
        prompt = req.prompt;
        grounded_ = found;
        not_ops = not_ops_;
        gate = gate_;
        rendered = prompt_;
        outcome = sym (ok_injective h₂);
      })

  new_turn_inv :
      (arc' : Arc U) (out : Relayed)
      → new_turn loads arc in_ prompter class judgment ≡ ok (arc', out)
      → ((arc' ≡ arc)
          × (out ≡ gap)
          × ((g : Grounding U T P) × (for_stage loads arc in_ ≡ ok (g, true))))
        ⊎ IsNewTurn arc' out
  new_turn_inv arc' out h =
      let ((g, is_gap), h₁, h₂) =
        ok_inv (wrapped "relay.Emit" (for_stage loads arc in_)) (asked arc prompter class judgment)
          (arc', out) h in
      let found = wrapped_inv "relay.Emit" (for_stage loads arc in_) (g, is_gap) h₁ in
      elim (asked_inv g is_gap arc' out found h₂) [
        | inl (e, o, is_gap_) ↦
            inl (e, o, (g, subst (λ b. for_stage loads arc in_ ≡ ok (g, b)) is_gap_ found))
        | inr turn ↦ inr turn
      ]

  -- Emitting a prompt has three ends. If a turn of the arc's stage is open, its prompt is given
  -- again and the arc stays as it is. If not, and the critic has a routing gap, no prompt is given
  -- and the arc stays as it is. Otherwise the prompt was rendered for the arc's grounding, at a stage other
  -- than ops and behind the model-gate, it is parked on the arc for this stage together with the
  -- ids of the context, and nothing else of the arc changes.
  pub emit-parks :
      (arc' : Arc U) (out : Relayed)
      → emit loads arc in_ prompter class judgment ≡ ok (arc', out)
      → ((p : Pending) × (arc.pending ≡ some p)
          × (same_stage p.stage arc.stage ≡ true)
          × (arc' ≡ arc)
          × (out ≡ awaiting p.prompt false []))
        ⊎ ((has_turn arc.pending arc.stage ≡ false)
            × ((g : Grounding U T P) × (for_stage loads arc in_ ≡ ok (g, true)))
            × (arc' ≡ arc)
            × (out ≡ gap))
        ⊎ ((g : Grounding U T P) × (prompt : String) × (has_turn arc.pending arc.stage ≡ false)
            × (for_stage loads arc in_ ≡ ok (g, false))
            × (arc.stage ≢ ops)
            × (model_gate arc.stage class judgment ≡ none)
            × (prompter arc (some g) ≡ ok prompt)
            × (arc' ≡ record arc {
              pending = some (record { stage = arc.stage; prompt = prompt });
              context = context_ids g.context;
            })
            × (out ≡ awaiting prompt (at_critic arc.stage && not (has_grounding g)) g.withheld))
  unfolding emit
  emit-parks arc' out h =
      elim (turn_for_inv arc arc' out (new_turn loads arc in_ prompter class judgment) arc.pending
        h) [
          | inl open_turn ↦ inl open_turn
          | inr (idle, rest) ↦ elim (new_turn_inv arc' out rest) [
            | inl (e, o, found) ↦ inr (inl (idle, found, e, o))
            | inr t ↦ inr (
                inr (
                  t.grounding,
                  t.prompt,
                  idle,
                  t.grounded_,
                  t.not_ops,
                  t.gate,
                  t.rendered,
                  ap (λ x. x.0) t.outcome,
                  ap (λ x. x.1) t.outcome,
                ))
          ]
        ]

module _ {U : Type 0} (arc : Arc U) (reply : Reply U) where
  -- What a turn with this reply leaves of an arc, and what it changes.
  record IsTurn (was_critic : Bool) (arc' : Arc U) : Type 0 where
    stage_ : arc'.stage ≡ stage_or (next_stage arc.stage) arc.stage
    history_ :
        arc'.history ≡ arc.history ++ concat (stage_text arc.stage ∷ ": " ∷ reply.text ∷ []) ∷ []
    pending_ : arc'.pending ≡ none
    findings_ : arc'.findings ≡ (if was_critic then reply.findings else arc.findings)
    status_ : arc'.status ≡ arc.status
    reworks_ : arc'.reworks ≡ arc.reworks
    paths_ : arc'.paths ≡ arc.paths
    id_ : arc'.id ≡ arc.id

  recorded-IsTurn :
      (is_chosen was_critic : Bool)
      → IsTurn was_critic (
          recorded was_critic reply (
            apply
              (if is_chosen then record arc { resolution = reply.resolution } else arc)
              (record { text = reply.text })))
  unfolding apply
  recorded-IsTurn true true = record {
    stage_ = refl;
    history_ = refl;
    pending_ = refl;
    findings_ = refl;
    status_ = refl;
    reworks_ = refl;
    paths_ = refl;
    id_ = refl;
  }
  recorded-IsTurn true false = record {
    stage_ = refl;
    history_ = refl;
    pending_ = refl;
    findings_ = refl;
    status_ = refl;
    reworks_ = refl;
    paths_ = refl;
    id_ = refl;
  }
  recorded-IsTurn false true = record {
    stage_ = refl;
    history_ = refl;
    pending_ = refl;
    findings_ = refl;
    status_ = refl;
    reworks_ = refl;
    paths_ = refl;
    id_ = refl;
  }
  recorded-IsTurn false false = record {
    stage_ = refl;
    history_ = refl;
    pending_ = refl;
    findings_ = refl;
    status_ = refl;
    reworks_ = refl;
    paths_ = refl;
    id_ = refl;
  }

  chosen-stage : (chosen arc reply).stage ≡ arc.stage
  chosen-stage = elim (Bool-cases (chooses arc reply)) [ inl e ↦ rw e refl | inr e ↦ rw e refl ]

module _ {U G : Type 0} (decoder : Decoder U) (arc : Arc U) (text : String)
    (prompter : Prompter U G) (judgment : JudgmentRoles) where
  -- Applying a reply succeeds only with a reply that is well formed for the arc's stage, which is
  -- not ops and whose model-gate passed. It moves the arc on to the next stage, adds one line of
  -- the reply's text to the history, closes the pending turn, and records a critic's findings;
  -- id, status, reworks and footprint stay.
  pub resume-advances :
      (arc' : Arc U)
      → resume decoder arc text prompter judgment ≡ ok arc'
      → (reply : Reply U) × (parse_reply decoder arc.stage text ≡ ok reply)
        × (arc.stage ≢ ops)
        × (model_gate arc.stage reasoning judgment ≡ none)
        × (arc'.stage ≡ stage_or (next_stage arc.stage) arc.stage)
        × (arc'.history
            ≡ arc.history ++ concat (stage_text arc.stage ∷ ": " ∷ reply.text ∷ []) ∷ [])
        × (arc'.pending ≡ none)
        × (arc'.findings ≡ (if at_critic arc.stage then reply.findings else arc.findings))
        × (arc'.status ≡ arc.status)
        × (arc'.reworks ≡ arc.reworks)
        × (arc'.paths ≡ arc.paths)
        × (arc'.id ≡ arc.id)
  unfolding resume relay default_class
  resume-advances arc' h =
      let (reply, h₁, h₂) =
        ok_inv (wrapped "relay.Resume" (parse_reply decoder arc.stage text))
          (λ r.
            wrapped "relay.Resume"
              (execute (relay r.text ModelClass.unset) prompter (chosen arc r) judgment)
            >>= λ a. ok (recorded (at_critic arc.stage) r a))
          arc' h in
      let (moved, h₃, h₄) =
        ok_inv
          (wrapped "relay.Resume"
            (execute (relay reply.text ModelClass.unset) prompter (chosen arc reply) judgment))
          (λ a. ok (recorded (at_critic arc.stage) reply a)) arc' h₂ in
      let (not_ops, gate, (req, resp, rendered, answered, e)) =
        execute-ok prompter (chosen arc reply) judgment (relay reply.text ModelClass.unset) moved
          (wrapped_inv "relay.Resume" _ moved h₃) in
      let text_ : record { text = reply.text } ≡ resp = ok_injective answered in
      let same : recorded (at_critic arc.stage) reply
            (apply (chosen arc reply) (record { text = reply.text }))
          ≡ arc' =
        ap (λ r. recorded (at_critic arc.stage) reply (apply (chosen arc reply) r)) text_
        ∙ ap (recorded (at_critic arc.stage) reply) (sym e)
        ∙ ok_injective h₄ in
      let t =
        subst (IsTurn arc reply (at_critic arc.stage)) same
          (recorded-IsTurn arc reply (chooses arc reply) (at_critic arc.stage)) in
      let keeps = chosen-stage arc reply in
      (
        reply,
        wrapped_inv "relay.Resume" _ reply h₁,
        λ at_ops. not_ops (keeps ∙ at_ops),
        sym (ap (λ s. model_gate s reasoning judgment) keeps) ∙ gate,
        t.stage_,
        t.history_,
        t.pending_,
        t.findings_,
        t.status_,
        t.reworks_,
        t.paths_,
        t.id_,
      )
