-- ===== src/Adh/Registry.antt =====
-- The loop that validates a registry (internal/loop and internal/toolreg): each item by the ids
-- before it, up to the first problem.
use agentic_dev_harness.Shared.{
  ◌≡◌, refl, ◌↔◌, false, Bool-cases, inl, inr, Option, none, some, List, [], ◌∷◌, map, String, ◌==◌,
  eq_iff, arith, All, has, add, has-add,
}
use agentic_dev_harness.Adh.Error.{Error}

abbrev pub or_else : Option Error → Option Error → Option Error
or_else (some e) later = some e
or_else none later = later

pub or_else-none : (a b : Option Error) → (or_else a b ≡ none) ↔ ((a ≡ none) × (b ≡ none))
or_else-none none b = (λ h. (refl, h), λ h. h.1)
or_else-none (some e) b = (λ h. (h, absurd (ground (arith, h))), λ h. h.0)

-- No id stands twice.
abbrev pub Distinct : List String → Type 0
Distinct [] = Unit
Distinct (k ∷ ks) = (has k ks ≡ false) × Distinct ks

abbrev Fresh : List String → List String → Type 0
Fresh seen [] = Unit
Fresh seen (k ∷ ks) = (has k seen ≡ false) × Fresh (add k seen) ks

None : List String → List String → Type 0
None seen = All (λ j. has j seen ≡ false)

None-add :
    (k : String) (seen ks : List String)
    → None (add k seen) ks ↔ ((has k ks ≡ false) × None seen ks)
unfolding None
None-add k seen [] = (λ h. (refl, tt), λ h. tt)
None-add k seen (j ∷ ks) =
    let (to, from) = None-add k seen ks in
    let step = has-add j k seen in
    let swap : (j == k) ≡ (k == j) = ground (arith, eq_iff j k, eq_iff k j) in
    rw step (
      rw swap (elim (Bool-cases (k == j)) [
        | inl e ↦ rw e (λ h. absurd (ground (arith, h.0)), λ h. absurd (ground (arith, h.0)))
        | inr e ↦ rw e (λ h. ((to h.1).0, (h.0, (to h.1).1)), λ h. (h.1.0, from (h.0, h.1.1)))
      ]))

None-[] : (ks : List String) → None [] ks
unfolding None
None-[] [] = tt
None-[] (k ∷ ks) = (refl, None-[] ks)

Fresh-Distinct : (seen ks : List String) → Fresh seen ks ↔ (None seen ks × Distinct ks)
unfolding None
Fresh-Distinct seen [] = (λ h. (tt, tt), λ h. tt)
Fresh-Distinct seen (k ∷ ks) =
    let (to, from) = Fresh-Distinct (add k seen) ks in
    let (split, join) = None-add k seen ks in
    (
      λ h. ((h.0, (split (to h.1).0).1), ((split (to h.1).0).0, (to h.1).1)),
      λ h. (h.0.0, from (join (h.1.0, h.0.1), h.1.1)),
    )

module _ {A : Type 0} (id : A → String) (problem : List String → A → Option Error) where
  unfoldable pub validate_from : List String → List A → Option Error
  validate_from seen [] = none
  validate_from seen (x ∷ xs) = or_else (problem seen x) (validate_from (add (id x) seen) xs)

  validate_from-Fresh :
      (Whole : A → Type 0)
      → ((seen : List String) (x : A)
          → (problem seen x ≡ none) ↔ (Whole x × (has (id x) seen ≡ false)))
      → (seen : List String) (xs : List A)
      → (validate_from seen xs ≡ none) ↔ (All Whole xs × Fresh seen (map id xs))
  unfolding validate_from
  validate_from-Fresh Whole each seen [] = (λ h. (tt, tt), λ h. refl)
  validate_from-Fresh Whole each seen (x ∷ xs) =
      let (to, from) = validate_from-Fresh Whole each (add (id x) seen) xs in
      let (one, back) = each seen x in
      let (split, join) = or_else-none (problem seen x) (validate_from (add (id x) seen) xs) in
      (
        λ h.
            let (first, later) = split h in
            (((one first).0, (to later).0), ((one first).1, (to later).1)),
        λ h. join (back (h.0.0, h.1.0), from (h.0.1, h.1.1)),
      )

  -- Where an item has no problem exactly if it is whole and its id is new, a registry is valid
  -- exactly if its items are whole and its ids distinct.
  pub validate_from-Distinct :
      (Whole : A → Type 0)
      → ((seen : List String) (x : A)
          → (problem seen x ≡ none) ↔ (Whole x × (has (id x) seen ≡ false)))
      → (xs : List A) → (validate_from [] xs ≡ none) ↔ (All Whole xs × Distinct (map id xs))
  validate_from-Distinct Whole each xs =
      let (to, from) = validate_from-Fresh Whole each [] xs in
      let (split, join) = Fresh-Distinct [] (map id xs) in
      (λ h. ((to h).0, (split (to h).1).1), λ h. from (h.0, join (None-[] (map id xs), h.1)))
