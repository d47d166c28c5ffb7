-- ===== src/Commands/Relayed/Laws.antt =====
-- How a relayed drive ends, and what a reply does to the workspace.
pub mod Saves
pub mod Passes
use mathlib.Core.Path.{subst}
use agentic_dev_harness.Shared.{
  ◌≡◌, refl, sym, ap, ◌∙◌, ◌≢◌, ◌⊎◌, inl, inr, Bool, true, false, Option, none, some, List, [], ◌∷◌,
  ◌++◌, String, is_empty, Bool-cases, if◌then◌else◌, lookup, insert, lookup-insert, eq_iff, arith,
}
use agentic_dev_harness.Adh.Error.{Error, Result, ok, err, context}
use agentic_dev_harness.Adh.Stage.{
  Stage, strategy, execution, critic, evaluation, ops, next_stage, same_stage, stage_text, blocked,
}
use agentic_dev_harness.Adh.Arc.{Arc, Pending}
use agentic_dev_harness.Authority.{reasoning}
use agentic_dev_harness.Stages.{stage_or}
use agentic_dev_harness.Store.{Store, path, save}
use agentic_dev_harness.Store.Laws.{save-insert}
use agentic_dev_harness.Critic.Coverage.{CoverageEntry, finding_kinds_of}
use agentic_dev_harness.Critic.Grounding.{Inputs, Grounding, at_critic}
use agentic_dev_harness.Critic.Reply.{Reply, parse_reply}
use agentic_dev_harness.Relay.{has_turn, Relayed, emit, resume}
use agentic_dev_harness.Relay.Laws.{emit-parks, resume-advances}
use agentic_dev_harness.Worktree.{touched, changed_code_paths, capture_footprint}
use agentic_dev_harness.Commands.World.{World, Machine, Outcome, done, error, exit}
use agentic_dev_harness.Commands.Run.{
  RunConfig, adjudicate_stage, blocked_with, is_open, ops_message, report_done,
}
use agentic_dev_harness.Commands.Run.Laws.{Evaluated, at_evaluation}
use agentic_dev_harness.Commands.Relayed.{
  Workspace, RelayConfig, Part, stop, next, saved, stored, after_turn, replied, resume_relay,
  inputs, reported, emitted, emit_with, emit_relay, evaluated, relay_at, relay_pass, carry_on,
  relay_loop, drive_relay, resumed, record_coverage, is_execution, is_strategy,
}
use agentic_dev_harness.Commands.Relayed.Laws.Saves.{
  saved_store, saved_cases, Resting, at_gate, turn_open, Ends, fails, finds_gap, is_over, rests,
  SameTurn, barred_same, touched_same, Ended, same_stage_refl, lookup-inserted, Stops,
}
use agentic_dev_harness.Commands.Relayed.Laws.Passes.{relay_loop-Ends}

module _ {U T P F : Type 0} (machine : Machine) (cfg : RunConfig U (Grounding U T P) F)
    (relay : RelayConfig U T P) where
  -- The log of the critics' coverage is as it was, or it has grown by one entry of the arc that names
  -- some kinds, after a turn of the critic.
  abbrev pub Grown : Bool → String → Workspace U → Workspace U → Type 0
  Grown was_critic id w w' =
      (w'.coverage ≡ w.coverage)
      ⊎ ((was_critic ≡ true)
          × (entry : CoverageEntry) × (entry.arc ≡ id)
          × (entry.kinds ≢ [])
          × (w'.coverage ≡ w.coverage ++ entry ∷ []))

  -- What the turn of a reply leaves: an open turn of the arc's stage, which is not ops, was answered
  -- by a well-formed reply; the arc stands one stage further, with its id, no open turn and as often
  -- reworked, and is stored; the rest of the workspace is as it was, up to the coverage of a critic.
  pub record IsAnswered (text : String) (arc : Arc U) (w : Workspace U) (arc' : Arc U)
      (w' : Workspace U) : Type 0 where
    pub turn : has_turn arc.pending arc.stage ≡ true
    pub reply : Reply U
    pub parsed : parse_reply relay.decoder arc.stage text ≡ ok reply
    pub stage_ : arc'.stage ≡ stage_or (next_stage arc.stage) arc.stage
    pub pending_ : arc'.pending ≡ none
    pub status_ : arc'.status ≡ arc.status
    pub reworks_ : arc'.reworks ≡ arc.reworks
    pub store_ : w'.world.store ≡ insert (path arc'.id) arc' w.world.store
    pub logs_ : w'.world.logs ≡ w.world.logs
    pub metrics_ : w'.world.metrics ≡ w.world.metrics
    pub misses_ : w'.misses ≡ w.misses
    pub coverage_ : Grown (at_critic arc.stage) arc.id w w'
    pub id_ : arc'.id ≡ arc.id
    pub not_ops : arc.stage ≢ ops

  pub after_turn-SameTurn : (from : Stage) (arc : Arc U) → SameTurn (after_turn relay from arc) arc
  unfolding after_turn capture_footprint
  after_turn-SameTurn from arc =
      touched_same (is_execution from) (changed_code_paths relay.clean relay.changed) _ arc
        (barred_same (is_strategy from) arc _)

  -- The log of coverage is the only part of the workspace that a critic's turn may touch.
  pub record Covered (was_critic : Bool) (id : String) (w w' : Workspace U) : Type 0 where
    pub world_ : w'.world ≡ w.world
    pub misses_ : w'.misses ≡ w.misses
    pub coverage_ : Grown was_critic id w w'

  kinds_full : (kinds : List String) → is_empty kinds ≡ false → kinds ≢ []
  kinds_full [] h = absurd cc
  kinds_full (k ∷ ks) h = λ e. cc

  pub covered :
      (was_critic : Bool) (arc : Arc U) (w : Workspace U)
      → Covered was_critic arc.id w (if was_critic then record_coverage relay arc w else w)
  unfolding record_coverage
  covered false arc w = record { world_ = refl; misses_ = refl; coverage_ = inl refl }
  covered true arc w =
      let kinds_ = finding_kinds_of arc.findings in
      elim (Bool-cases relay.coverage_written) [
        | inr e ↦ rw e (record { world_ = refl; misses_ = refl; coverage_ = inl refl })
        | inl e ↦ elim (Bool-cases (is_empty kinds_)) [
          | inl none_ ↦
              rw e (rw none_ (record { world_ = refl; misses_ = refl; coverage_ = inl refl }))
          | inr some_ ↦ rw e (
              rw some_ (record {
                world_ = refl;
                misses_ = refl;
                coverage_ = inr (
                  refl,
                  record { arc = arc.id; kinds = kinds_ },
                  refl,
                  kinds_full kinds_ some_,
                  refl,
                );
              }))
        ]
      ]

  -- A refused reply: an error, and the workspace as it was, up to the coverage of a critic.
  abbrev pub Refused : Arc U → Workspace U → Part U → Type 0
  Refused arc w part =
      (e : Error) × (w' : Workspace U) × (part ≡ stop (error e) w')
      × (w'.world ≡ w.world)
      × (w'.misses ≡ w.misses)
      × Grown (at_critic arc.stage) arc.id w w'

  replied_cases :
      (text : String) (arc : Arc U) (w : Workspace U)
      → has_turn arc.pending arc.stage ≡ true
      → Refused arc w (replied machine cfg relay "run" arc w (ok text))
        ⊎ ((arc' : Arc U) × (w' : Workspace U) × (replied machine cfg relay "run" arc w (ok text)
              ≡ next arc' w')
            × IsAnswered text arc w arc' w')
  replied_cases text arc w turn_ =
      split (resume relay.decoder arc text cfg.prompter cfg.judgment) refl
    where
      split :
          (r : Result (Arc U))
          → resume relay.decoder arc text cfg.prompter cfg.judgment ≡ r
          → let part : Part U = elim r [
            | err e ↦ stop (error (context "run" e)) w
            | ok moved ↦
                let arc' = after_turn relay arc.stage moved in
                saved machine "run" arc'
                  (if at_critic arc.stage then record_coverage relay arc' w else w)
          ] in
            Refused arc w part
            ⊎ ((arc' : Arc U) × (w' : Workspace U) × (part ≡ next arc' w')
                × IsAnswered text arc w arc' w')
      split (err e) h = inl (_, w, refl, refl, refl, inl refl)
      split (ok moved) h =
          let (
            reply_, parsed_, not_ops_, gate, stage_, history, pending_, findings, status_, reworks_,
            paths, id,
          ) =
            resume-advances relay.decoder arc text cfg.prompter cfg.judgment moved h in
          let arc' = after_turn relay arc.stage moved in
          let same = after_turn-SameTurn arc.stage moved in
          let w₁ : Workspace U = if at_critic arc.stage then record_coverage relay arc' w else w in
          let own = same.id_ ∙ id in
          let cover = covered (at_critic arc.stage) arc' w in
          let grown = subst (λ i. Grown (at_critic arc.stage) i w w₁) own cover.coverage_ in
          elim (saved_cases machine "run" arc' w₁) [
            | inl (e, k) ↦ inl (e, w₁, k, cover.world_, cover.misses_, grown)
            | inr k ↦ inr (
              arc',
              _,
              k,
              record {
                turn = turn_;
                reply = reply_;
                parsed = parsed_;
                stage_ = same.stage_ ∙ stage_;
                pending_ = same.pending_ ∙ pending_;
                status_ = same.status_ ∙ status_;
                reworks_ = same.reworks_ ∙ reworks_;
                store_ = ap (λ v. insert (path arc'.id) arc' v.store) cover.world_;
                logs_ = ap (λ v. v.logs) cover.world_;
                metrics_ = ap (λ v. v.metrics) cover.world_;
                misses_ = cover.misses_;
                coverage_ = grown;
                id_ = own;
                not_ops = not_ops_;
              },
            )
          ]

  -- A reply either ends in an error and leaves the arcs, the logs, the ledger and the misses as they
  -- are, or answers an open turn of the arc's stage, is well formed for it, and is stored with the
  -- arc one stage further and the turn closed. In both cases the log of coverage may have grown by
  -- one entry, which names some kinds, if the turn was the critic's.
  pub resume_relay-cases :
      (text : String) (arc : Arc U) (w : Workspace U)
      → Refused arc w (resume_relay machine cfg relay (ok text) arc w)
        ⊎ ((arc' : Arc U) × (w' : Workspace U) × (resume_relay machine cfg relay (ok text) arc w
              ≡ next arc' w')
            × IsAnswered text arc w arc' w')
  unfolding resume_relay
  resume_relay-cases text arc w = elim (Bool-cases (has_turn arc.pending arc.stage)) [
    | inl turn_ ↦ rw turn_ (replied_cases text arc w turn_)
    | inr idle ↦ rw idle (inl (_, w, refl, refl, refl, inl refl))
  ]

  -- The arc stands in the file of its id.
  abbrev pub Holds : Arc U → Workspace U → Type 0
  Holds arc w = lookup (path arc.id) w.world.store ≡ some arc

  resumed-Stops :
      (text : Result String) (arc : Arc U) (w : Workspace U)
      → Stops arc.id (resume_relay machine cfg relay text arc w)
        ⊎ ((arc' : Arc U) × (w' : Workspace U) × (resume_relay machine cfg relay text arc w
              ≡ next arc' w')
            × (arc'.id ≡ arc.id)
            × Holds arc' w')
  unfolding resume_relay
  resumed-Stops (err e) arc w = elim (Bool-cases (has_turn arc.pending arc.stage)) [
    | inl turn_ ↦ rw turn_ (inl (_, _, refl, fails _))
    | inr idle ↦ rw idle (inl (_, _, refl, fails _))
  ]
  resumed-Stops (ok text) arc w = elim (resume_relay-cases text arc w) [
    | inl (e, w', k, _, _, _) ↦ inl (_, w', k, fails e)
    | inr (arc', w', k, answered) ↦ inr (
      arc',
      w',
      k,
      answered.id_,
      ap (lookup (path arc'.id)) answered.store_
          ∙ lookup-inserted (path arc'.id) arc' w.world.store,
    )
  ]

  -- A relayed drive of an arc that stands in the file of its id always ends, with two passes of its
  -- loop: in an error; or with an arc of this id stored in this file that is not open, or is blocked
  -- at the ship gate, or is open with an open turn of its own stage; or in a routing gap, with exit
  -- code 12 and an arc of this id stored that is open without one.
  pub drive_relay-Ends :
      (arc : Arc U) (w : Workspace U)
      → Holds arc w
      → (o : Outcome) × (w' : Workspace U) × (drive_relay machine cfg relay arc w ≡ some (o, w'))
        × Ends arc.id w' o
  unfolding drive_relay
  drive_relay-Ends arc w held = by_response relay.response
    where
      by_response :
          (response : Option (Result String))
          → (o : Outcome) × (w' : Workspace U) × (carry_on machine cfg relay
                (relay_loop machine cfg relay 2)
                (resumed machine cfg relay response arc w)
              ≡ some (o, w'))
            × Ends arc.id w' o
      by_response none = relay_loop-Ends machine cfg relay arc w held
      by_response (some text) = elim (resumed-Stops text arc w) [
        | inl (o, w', e, ends) ↦ (o, w', rw e refl, ends)
        | inr (arc', w', e, own, held') ↦
            let (o, w'', e', ends) = relay_loop-Ends machine cfg relay arc' w' held' in
            (o, w'', rw e e', subst (λ i. Ends i w'' o) own ends)
      ]
