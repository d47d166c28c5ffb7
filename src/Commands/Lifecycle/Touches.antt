-- ===== src/Commands/Lifecycle/Touches.antt =====
-- Which entries of the store a command writes.
use agentic_dev_harness.Shared.{
  ◌≡◌, refl, ◌∙◌, ◌⊎◌, inl, inr, Option, none, some, String, ◌==◌, eq_iff, Bool-cases, lookup,
  insert, lookup-insert, arith,
}
use agentic_dev_harness.Adh.Error.{Error, ok}
use agentic_dev_harness.Adh.Arc.{Arc}
use agentic_dev_harness.Store.{Files, Store, path, get, found, save}
use agentic_dev_harness.Store.Laws.{lookup-save}

module _ {U : Type 0} where
  -- From one store to another, only arcs of this id were written, and into its file.
  abbrev pub Touches : String → Store U → Store U → Type 0
  Touches id s s' =
      (j : String)
      → (lookup j s' ≡ lookup j s)
        ⊎ ((arc : Arc U) × (lookup j s' ≡ some arc) × (arc.id ≡ id) × (path id ≡ j))

  pub Touches-refl : (id : String) (s s' : Store U) → s' ≡ s → Touches id s s'
  Touches-refl id s s' e j = inl (rw e refl)

  pub Touches-trans :
      (id : String) (s s' s'' : Store U) → Touches id s s' → Touches id s' s'' → Touches id s s''
  Touches-trans id s s' s'' a b j = elim (b j) [
    | inr written ↦ inr written
    | inl same ↦ elim (a j) [
      | inl same' ↦ inl (same ∙ same')
      | inr (arc, held, at, e) ↦ inr (arc, same ∙ held, at, e)
    ]
  ]

  pub insert-Touches : (arc : Arc U) (s : Store U) → Touches arc.id s (insert (path arc.id) arc s)
  insert-Touches arc s j = elim (Bool-cases (path arc.id == j)) [
    | inl e ↦
        inr
          (arc, lookup-insert (path arc.id) j arc s ∙ rw e refl, refl, (eq_iff (path arc.id) j).0 e)
    | inr e ↦ inl (lookup-insert (path arc.id) j arc s ∙ rw e refl)
  ]

  pub save-Touches :
      (files : Files) (arc : Arc U) (s s' : Store U)
      → save files arc s ≡ ok s'
      → Touches arc.id s s'
  save-Touches files arc s s' h j = elim (Bool-cases (path arc.id == j)) [
    | inl e ↦
        inr (arc, rw (lookup-save files arc s s' j h, e) refl, refl, (eq_iff (path arc.id) j).0 e)
    | inr e ↦ inl (rw (lookup-save files arc s s' j h, e) refl)
  ]

  found_inv :
      (files : Files) (id : String) (fault : Option Error) (held : Option (Arc U)) (arc : Arc U)
      → found files id fault held ≡ ok arc
      → held ≡ some arc
  found_inv files id none (some a) arc h = ground arith
  found_inv files id (some e) (some a) arc h = absurd (ground arith)
  found_inv files id fault none arc h = absurd (ground arith)

  pub get-lookup :
      (files : Files) (id : String) (s : Store U) (arc : Arc U)
      → get files id s ≡ ok arc
      → lookup (path id) s ≡ some arc
  unfolding get
  get-lookup files id s arc h =
      found_inv files id (files.read_fault (path id)) (lookup (path id) s) arc h
