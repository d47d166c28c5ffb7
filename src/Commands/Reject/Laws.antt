-- ===== src/Commands/Reject/Laws.antt =====
-- Where a rejected arc goes.
use agentic_dev_harness.Shared.{
  ◌≡◌, refl, ap, ◌∙◌, ◌⊎◌, inl, inr, false, none, List, [], ◌∷◌, String, Bool-cases, arith,
}
use agentic_dev_harness.Adh.Error.{ok}
use agentic_dev_harness.Adh.Stage.{blocked, open_, execution}
use agentic_dev_harness.Adh.Arc.{Arc}
use agentic_dev_harness.Store.{get, save}
use agentic_dev_harness.Commands.World.{
  World, Machine, Outcome, done, finished, saving_inv, with_arc_inv,
}
use agentic_dev_harness.Commands.Approve.{is_blocked}
use agentic_dev_harness.Commands.Approve.Laws.{is_blocked_iff}
use agentic_dev_harness.Commands.Reject.{RejectConfig, return_arc, rejected, reject, at_gate}

module _ {U : Type 0} (machine : Machine) (cfg : RejectConfig) where
  -- What a rejection that changed the workspace did to the arc.
  abbrev pub Returns : Arc U → Arc U → World U → Outcome → World U → Type 0
  Returns arc back w o w' =
      (arc.status ≡ blocked)
      × (cfg.dry_run ≡ false)
      × (o ≡ done)
      × (save machine.files back w.store ≡ ok w'.store)
      × (back.id ≡ arc.id)
      × (back.stage ≡ execution)
      × (back.status ≡ open_)
      × (back.findings ≡ [])
      × (back.paths ≡ [])
      × (back.pending ≡ none)
      × (back.reworks ≡ arc.reworks)
      × (back.proof ≡ arc.proof)

  at_gate_inv :
      (id : String) (arc : Arc U) (w w' : World U) (o : Outcome)
      → at_gate machine cfg id arc w ≡ (o, w')
      → (w' ≡ w) ⊎ Returns arc (rejected machine cfg arc) w o w'
  unfolding return_arc
  at_gate_inv id arc w w' o h = elim (Bool-cases (is_blocked arc.status)) [
    | inr e ↦ inl (ground arith)
    | inl e ↦ elim (Bool-cases cfg.dry_run) [
      | inl d ↦ inl (ground arith)
      | inr d ↦
          let back = rejected machine cfg arc in
          elim (saving_inv machine "reject" back (finished machine) w w' o (ground arith)) [
            | inl (_, _, same) ↦ inl same
            | inr (store, saved, h') ↦
                let ends : o ≡ done = ground arith in
                let held : store ≡ w'.store = ap (λ p. p.1.store) h' in
                inr (
                  is_blocked_iff arc.status e,
                  d,
                  ends,
                  saved ∙ ap ok held,
                  refl,
                  refl,
                  refl,
                  refl,
                  refl,
                  refl,
                  refl,
                  refl,
                )
          ]
    ]
  ]

  -- A rejection either leaves the workspace as it is, or an arc that waited at a gate went back to
  -- Execution, outside a dry run: it is open there, without findings, paths or a pending turn, and
  -- with the reworks and the proof path that it had.
  pub reject_returns :
      (id : String) (args : List String) (w w' : World U) (o : Outcome)
      → reject machine cfg (id ∷ args) w ≡ (o, w')
      → (w' ≡ w)
        ⊎ ((arc : Arc U) × (back : Arc U) × (get machine.files id w.store ≡ ok arc)
            × Returns arc back w o w')
  unfolding reject
  reject_returns id args w w' o h =
      elim (with_arc_inv machine "reject" id (at_gate machine cfg id) w w' o h) [
        | inl same ↦ inl same
        | inr (arc, held, h') ↦ elim (at_gate_inv id arc w w' o h') [
          | inl same ↦ inl same
          | inr back ↦ inr (arc, rejected machine cfg arc, held, back)
        ]
      ]
