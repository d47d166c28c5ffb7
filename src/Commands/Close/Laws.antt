-- ===== src/Commands/Close/Laws.antt =====
-- NO-PROOF-NO-CLOSE: what stands behind an arc that `close` ships.
use mathlib.Core.Path.{subst}
use agentic_dev_harness.Shared.{
  ◌≡◌, refl, sym, ap, ◌∙◌, ◌≢◌, ◌⊎◌, inl, inr, Bool, true, false, Option, none, some, List, ◌∷◌,
  String, ◌==◌, eq_iff, if◌then◌else◌, Bool-cases, arith,
}
use agentic_dev_harness.Adh.Error.{Error, Result, ok, err}
use agentic_dev_harness.Adh.Stage.{
  ops, open_, Resolution, decision, change, investigation, experiment, resolution_valid,
}
use agentic_dev_harness.Adh.Arc.{Arc, can_close, can_close_iff}
use agentic_dev_harness.Adr.{valid}
use agentic_dev_harness.Store.{get, save}
use agentic_dev_harness.Commands.World.{
  World, Machine, Outcome, done, Command, finished, saving_inv, with_arc_inv,
}
use agentic_dev_harness.Commands.Close.{
  Outside, CloseConfig, Check, passed, ended, ◌>>=◌, of_error, of_result, ready_to_close,
  can_close_check, shipped, apply_resolution, proof_at, decision_of, verdict_of, decision_proof,
  packet_proof, verify_proof, proven, checked, record_metric, add_metric, metric, at_gate, close,
}

bind_inv :
    {A B : Type 0} (m : Check A) (f : A → Check B) (b : B)
    → (m >>= f) ≡ passed b
    → (a : A) × (m ≡ passed a) × (f a ≡ passed b)
bind_inv (passed a) f b h = (a, refl, h)
bind_inv (ended o) f b h = cc

module _ {U : Type 0} where
  ready_inv :
      (arc arc' : Arc U)
      → of_error (ready_to_close arc) arc ≡ passed arc'
      → (arc.stage ≡ ops) × (arc.status ≡ open_) × (arc' ≡ arc)
  unfolding ready_to_close
  ready_inv arc arc' h = ground arith

  can_close_check_inv :
      (arc arc' : Arc U) (problem : Option Error)
      → can_close_check arc problem ≡ passed arc'
      → (problem ≡ none) × (arc' ≡ arc)
  unfolding can_close_check
  can_close_check_inv arc arc' none h = (refl, ground arith)
  can_close_check_inv arc arc' (some e) h = absurd (ground arith)

-- Proof behind a manifest: for a decision a complete record, for any other resolution a packet that
-- loads and verifies.
abbrev pub Proven : {U : Type 0} → Outside U → Resolution → String → Type 0
Proven outside decision manifest =
    (text : String) × (outside.read_file manifest ≡ ok text) × (valid text ≡ none)
Proven outside _ manifest =
    (packet : outside.Packet) × (outside.load manifest ≡ ok packet) × (outside.verify packet ≡ none)

module _ {U : Type 0} (machine : Machine) (outside : Outside U) (cfg : CloseConfig) where
  open outside use {Packet, load, verify, read_file}

  decision_inv :
      (r : Result String)
      → decision_of r ≡ passed true
      → (text : String) × (r ≡ ok text) × (valid text ≡ none)
  decision_inv (ok text) h = (text, refl, ground arith)
  decision_inv (err e) h = absurd (ground arith)

  packet_inv :
      (manifest : String)
      → packet_proof machine outside cfg manifest ≡ passed true
      → (packet : Packet) × (load manifest ≡ ok packet) × (verify packet ≡ none)
  unfolding packet_proof
  packet_inv manifest h = let r = load manifest in loaded r refl h
    where
      loaded :
          (r : Result Packet)
          → load manifest ≡ r
          → (of_result r >>= λ packet. verdict_of (verify packet)) ≡ passed true
          → (packet : Packet) × (load manifest ≡ ok packet) × (verify packet ≡ none)
      loaded (ok packet) e h = (packet, e, ground arith)
      loaded (err e') e h = absurd (ground arith)

  proof_at_inv :
      (r : Resolution) (manifest : String)
      → proof_at machine outside cfg r manifest ≡ passed true
      → Proven outside r manifest
  unfolding decision_proof
  proof_at_inv decision manifest h = decision_inv (read_file manifest) h
  proof_at_inv Resolution.unset manifest h = packet_inv manifest h
  proof_at_inv change manifest h = packet_inv manifest h
  proof_at_inv investigation manifest h = packet_inv manifest h
  proof_at_inv experiment manifest h = packet_inv manifest h
  proof_at_inv (Resolution.other s) manifest h = packet_inv manifest h

  -- The manifest that `verifyProof` reads.
  abbrev pub manifest_of : Arc U → String
  manifest_of arc = if cfg.proof == "" then arc.proof else cfg.proof

  verify_inv :
      (arc : Arc U)
      → verify_proof machine outside cfg arc ≡ passed true
      → (manifest_of arc ≢ "") × Proven outside arc.resolution (manifest_of arc)
  unfolding verify_proof
  verify_inv arc h = elim (Bool-cases (manifest_of arc == "")) [
    | inl e ↦ absurd (ground arith)
    | inr e ↦ (
      λ q. absurd (ground (arith, eq_iff (manifest_of arc) "")),
      proof_at_inv arc.resolution (manifest_of arc) (ground arith),
    )
  ]

  -- The arc as it passes the checks: it waits approved at ops, its resolution, the one named with
  -- `--as` if any, is valid, and the proof behind its manifest holds.
  abbrev pub Shippable : Arc U → Arc U → Type 0
  Shippable arc resolved =
      (arc.stage ≡ ops)
      × (arc.status ≡ open_)
      × (apply_resolution machine outside cfg arc ≡ passed resolved)
      × (resolution_valid resolved.resolution ≡ true)
      × (manifest_of resolved ≢ "")
      × Proven outside resolved.resolution (manifest_of resolved)

  abbrev Proved : Arc U → Type 0
  Proved arc =
      (resolution_valid arc.resolution ≡ true)
      × (manifest_of arc ≢ "")
      × Proven outside arc.resolution (manifest_of arc)

  proven_inv :
      (arc arc' : Arc U) → proven machine outside cfg arc ≡ passed arc' → (arc' ≡ arc) × Proved arc
  unfolding proven
  proven_inv arc arc' h =
      let check = λ (b : Bool). can_close_check arc (can_close arc b) in
      let (has_proof, h₁, h₂) = bind_inv (verify_proof machine outside cfg arc) check arc' h in
      let (closes, same) = can_close_check_inv arc arc' (can_close arc has_proof) h₂ in
      let (valid_, proof) = (can_close_iff arc has_proof).0 closes in
      let (named, behind) = verify_inv arc (h₁ ∙ ap passed proof) in (same, (valid_, named, behind))

  checked_inv :
      (arc resolved : Arc U)
      → checked machine outside cfg arc ≡ passed resolved
      → Shippable arc resolved
  unfolding checked
  checked_inv arc resolved h =
      let resolve = apply_resolution machine outside cfg in
      let prove = proven machine outside cfg in
      let (ready, h₁, h₂) =
        bind_inv (of_error (ready_to_close arc) arc) (λ ready. resolve ready >>= prove) resolved
          h in
      let (at_ops, is_open, same) = ready_inv arc ready h₁ in
      let (arc', h₃, h₄) = bind_inv (resolve ready) prove resolved h₂ in
      let (same', proved) = proven_inv arc' resolved h₄ in
      let (valid_, named, proof) = subst Proved (sym same') proved in
      let resolves = sym (ap resolve same) ∙ h₃ ∙ ap passed (sym same') in
      (at_ops, is_open, resolves, valid_, named, proof)

  -- What `close` does after its save.
  abbrev record_cost : Arc U → Command U
  record_cost arc w = finished machine (record_metric machine (shipped outside arc) w)

  cost_store : (arc : Arc U) (w : World U) → (record_cost arc w).1.store ≡ w.store
  unfolding record_metric
  cost_store arc w = added machine.metrics_fault
    where
      added :
          (fault : Option Error)
          → (add_metric fault (metric (shipped outside arc)) w).store ≡ w.store
      added none = refl
      added (some e) = refl

  gate_inv :
      (check : Check (Arc U)) (w w' : World U) (o : Outcome)
      → at_gate machine outside cfg check w ≡ (o, w')
      → (w' ≡ w)
        ⊎ ((resolved : Arc U) × (check ≡ passed resolved)
            × (cfg.dry_run ≡ false)
            × (o ≡ done)
            × (save machine.files (shipped outside resolved) w.store ≡ ok w'.store))
  gate_inv (ended o') w w' o h = inl (ground arith)
  gate_inv (passed arc) w w' o h = elim (Bool-cases cfg.dry_run) [
    | inl e ↦ inl (ground arith)
    | inr e ↦
        elim (saving_inv machine "close" (shipped outside arc) (record_cost arc) w w' o
          (ground arith)) [
            | inl (_, _, same) ↦ inl same
            | inr (store, saved, h') ↦ inr (
              arc,
              refl,
              e,
              ground arith,
              saved ∙ ap ok (sym (cost_store arc _) ∙ ap (λ r. r.1.store) h'),
            )
          ]
  ]

  -- What a `close` that changed the workspace did.
  abbrev pub Ships : String → World U → Outcome → World U → Type 0
  Ships id w o w' =
      (arc : Arc U) × (resolved : Arc U) × (get machine.files id w.store ≡ ok arc)
      × Shippable arc resolved
      × (cfg.dry_run ≡ false)
      × (o ≡ done)
      × (save machine.files (shipped outside resolved) w.store ≡ ok w'.store)

  -- NO-PROOF-NO-CLOSE. A `close` either leaves the workspace as it is, or it is no dry run, it ends
  -- well, and what it saved is the shipped form of an arc that waited approved at ops, with a valid
  -- resolution and with the proof behind its manifest: a complete record for a decision, a packet
  -- that loads and verifies for any other resolution.
  pub close_proven :
      (id : String) (args : List String) (w w' : World U) (o : Outcome)
      → close machine outside cfg (id ∷ args) w ≡ (o, w')
      → (w' ≡ w) ⊎ Ships id w o w'
  unfolding close
  close_proven id args w w' o h =
      elim (with_arc_inv machine "close" id
        (λ arc. at_gate machine outside cfg (checked machine outside cfg arc)) w w' o h) [
          | inl same ↦ inl same
          | inr (arc, found, h₁) ↦ elim (gate_inv (checked machine outside cfg arc) w w' o h₁) [
            | inl same ↦ inl same
            | inr (resolved, passes, wet, ends, saved) ↦
                inr (arc, resolved, found, checked_inv arc resolved passes, wet, ends, saved)
          ]
        ]
