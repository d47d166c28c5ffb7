-- ===== src/Commands/Approve/Laws.antt =====
-- Who passes a human gate.
use agentic_dev_harness.Shared.{
  ◌≡◌, sym, ap, ◌∙◌, ◌≢◌, ◌⊎◌, inl, inr, Bool, true, false, List, [], ◌∷◌, ◌++◌, String, Bool-cases,
  arith,
}
use agentic_dev_harness.Adh.Error.{ok}
use agentic_dev_harness.Adh.Stage.{Status, open_, blocked}
use agentic_dev_harness.Adh.Arc.{Arc}
use agentic_dev_harness.Authority.{gate_satisfied, required_approval_phrase, gate_satisfied_iff}
use agentic_dev_harness.Store.{get, save}
use agentic_dev_harness.Commands.World.{
  World, Machine, Outcome, done, finished, saving_inv, with_arc_inv,
}
use agentic_dev_harness.Commands.Approve.{is_blocked, approved, approve, at_gate}

pub is_blocked_iff : (s : Status) → is_blocked s ≡ true → s ≡ blocked
is_blocked_iff s h = ground arith

module _ {U : Type 0} (machine : Machine) (phrase : String) (dry_run : Bool) where
  -- What an approval that changed the workspace did to the arc.
  abbrev pub Passes : String → Arc U → World U → Outcome → World U → Type 0
  Passes id arc w o w' =
      (arc.status ≡ blocked)
      × (dry_run ≡ false)
      × (id ≢ "")
      × (phrase ≡ id)
      × (o ≡ done)
      × (save machine.files
            (record arc { status = open_; history = arc.history ++ "gate approved" ∷ [] }) w.store
          ≡ ok w'.store)
      × (w'.logs ≡ w.logs)
      × (w'.metrics ≡ w.metrics)

  at_gate_inv :
      (id : String) (arc : Arc U) (w w' : World U) (o : Outcome)
      → at_gate machine phrase dry_run id arc w ≡ (o, w')
      → (w' ≡ w) ⊎ Passes id arc w o w'
  at_gate_inv id arc w w' o h = elim (Bool-cases (is_blocked arc.status)) [
    | inr e ↦ inl (ground arith)
    | inl e ↦ elim (Bool-cases (gate_satisfied (required_approval_phrase id) phrase dry_run)) [
      | inr g ↦ inl (ground arith)
      | inl g ↦
          let arc' = approved machine phrase dry_run arc in
          elim (saving_inv machine "approve" arc' (finished machine) w w' o (ground arith)) [
            | inl (_, _, same) ↦ inl same
            | inr (store, saved, h') ↦
                let (wet, named, typed) = (gate_satisfied_iff id phrase dry_run).0 g in
                let ends : o ≡ done = ground arith in
                let held : store ≡ w'.store = ap (λ p. p.1.store) h' in
                let same_logs : w.logs ≡ w'.logs = ap (λ p. p.1.logs) h' in
                let same_metrics : w.metrics ≡ w'.metrics = ap (λ p. p.1.metrics) h' in
                inr (
                  is_blocked_iff arc.status e,
                  wet,
                  named,
                  typed,
                  ends,
                  saved ∙ ap ok held,
                  sym same_logs,
                  sym same_metrics,
                )
          ]
    ]
  ]

  -- An approval either leaves the workspace as it is, or an arc that waited at a gate was let
  -- through: outside a dry run, the phrase typed was the id that the command was given, which is not
  -- empty, the command ended well, and the arc was saved with the status open and the line
  -- "gate approved" behind its history, and otherwise as it was; the logs and the ledger stay.
  pub approve_gated :
      (id : String) (args : List String) (w w' : World U) (o : Outcome)
      → approve machine phrase dry_run (id ∷ args) w ≡ (o, w')
      → (w' ≡ w) ⊎ ((arc : Arc U) × (get machine.files id w.store ≡ ok arc) × Passes id arc w o w')
  unfolding approve
  approve_gated id args w w' o h =
      elim (with_arc_inv machine "approve" id (at_gate machine phrase dry_run id) w w' o h) [
        | inl same ↦ inl same
        | inr (arc, held, h') ↦ elim (at_gate_inv id arc w w' o h') [
          | inl same ↦ inl same
          | inr passes ↦ inr (arc, held, passes)
        ]
      ]
