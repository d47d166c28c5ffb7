-- ===== src/Critic/Disposition/Laws.antt =====
-- The buckets of a verdict, described without the loop.
use mathlib.Core.List.{Perm, append_assoc, append-nil, perm_middle}
use mathlib.Core.List.Perm
use agentic_dev_harness.Shared.{
  ◌≡◌, refl, ◌∙◌, Bool, not, ◌&&◌, List, [], ◌∷◌, ◌++◌, map, any, inl, inr, filter, is_empty,
  Bool-cases,
}
use agentic_dev_harness.Adh.Finding.{Finding, trustworthy}
use agentic_dev_harness.Critic.Disposition.{
  Adjudicated, Verdict, clean, dispose_one, dispose_from, dispose, returns_to_execution,
}

module _ {F : Type 0} where
  -- The artifact ran and failed.
  abbrev pub was_confirmed : Adjudicated F → Bool
  was_confirmed r = r.ran && r.failed

  -- The artifact ran and passed.
  abbrev pub was_passed : Adjudicated F → Bool
  was_passed r = r.ran && not r.failed

  abbrev pub was_unchecked : Adjudicated F → Bool
  was_unchecked r = not r.ran

  abbrev pub was_reserved : Adjudicated F → Bool
  was_reserved r = r.ran && not r.failed && r.regressed

  abbrev pub was_refused : Adjudicated F → Bool
  was_refused r = not r.ran && trustworthy r.unrunnable

  -- The findings of the results that pass a test, in the order adjudicated.
  abbrev pub picked : (Adjudicated F → Bool) → List (Adjudicated F) → List Finding
  picked p rs = map (λ r. r.finding) (filter p rs)

  -- A verdict with the picks of further results behind its buckets.
  abbrev extended : Verdict → List (Adjudicated F) → Verdict
  extended v rs = record {
    confirmed = v.confirmed ++ picked was_confirmed rs;
    unconfirmed = v.unconfirmed ++ picked was_passed rs;
    unchecked = v.unchecked ++ picked was_unchecked rs;
    reservations = v.reservations ++ picked was_reserved rs;
    refused = v.refused ++ picked was_refused rs;
  }

  extended-cons :
      (v : Verdict) (r : Adjudicated F) (rs : List (Adjudicated F))
      → extended (dispose_one v r) rs ≡ extended v (r ∷ rs)
  unfolding dispose_one
  extended-cons v r rs = elim (Bool-cases r.ran) [
    | inl ran ↦ elim (Bool-cases r.failed) [
      | inl fails ↦ simp (ran, fails, append_assoc)
      | inr passes ↦ elim (Bool-cases r.regressed) [
        | inl worse ↦ simp (ran, passes, worse, append_assoc)
        | inr fine ↦ simp (ran, passes, fine, append_assoc)
      ]
    ]
    | inr idle ↦ elim (Bool-cases (trustworthy r.unrunnable)) [
      | inl refused ↦ simp (idle, refused, append_assoc)
      | inr vague ↦ simp (idle, vague, append_assoc)
    ]
  ]

  dispose_from-eq : (v : Verdict) (rs : List (Adjudicated F)) → dispose_from v rs ≡ extended v rs
  unfolding dispose_from
  dispose_from-eq v [] = simp append-nil
  dispose_from-eq v (r ∷ rs) = dispose_from-eq (dispose_one v r) rs ∙ extended-cons v r rs

  -- Each bucket of the verdict holds, in the order adjudicated, exactly the findings of one
  -- outcome: confirmed if the artifact ran and failed, unconfirmed if it ran and passed, unchecked
  -- if it did not run, a reservation if it passed with a regression, refused if it did not run and
  -- the reason is a registered tool that failed to start.
  pub dispose-eq :
      (rs : List (Adjudicated F))
      → dispose rs ≡ record {
        confirmed = picked was_confirmed rs;
        unconfirmed = picked was_passed rs;
        unchecked = picked was_unchecked rs;
        reservations = picked was_reserved rs;
        refused = picked was_refused rs;
      }
  unfolding dispose
  dispose-eq rs = dispose_from-eq clean rs

  picked-perm :
      (rs : List (Adjudicated F))
      → Perm
          (picked was_confirmed rs ++ (picked was_passed rs ++ picked was_unchecked rs))
          (map (λ r. r.finding) rs)
  picked-perm [] = Perm.refl _
  picked-perm (r ∷ rs) = elim (Bool-cases r.ran) [
    | inl ran ↦ elim (Bool-cases r.failed) [
      | inl fails ↦ simp (ran, fails) (Perm.cons r.finding (picked-perm rs))
      | inr passes ↦
          simp (ran, passes)
            (Perm.trans (perm_middle (picked was_confirmed rs) _)
              (Perm.cons r.finding (picked-perm rs)))
    ]
    | inr idle ↦ simp idle (
        Perm.trans
          (Perm.append_left (picked was_confirmed rs) (perm_middle (picked was_passed rs) _))
          (Perm.trans (perm_middle (picked was_confirmed rs) _)
            (Perm.cons r.finding (picked-perm rs))))
  ]

  -- The confirmed, unconfirmed and unchecked findings together are a permutation of the findings
  -- adjudicated: every finding lands in exactly one of the three.
  pub dispose_partition :
      (rs : List (Adjudicated F))
      → let v = dispose rs in
        Perm (v.confirmed ++ (v.unconfirmed ++ v.unchecked)) (map (λ r. r.finding) rs)
  dispose_partition rs = rw dispose-eq (picked-perm rs)

  is_empty-picked :
      (p : Adjudicated F → Bool) (rs : List (Adjudicated F))
      → not (is_empty (picked p rs)) ≡ any p rs
  is_empty-picked p [] = refl
  is_empty-picked p (r ∷ rs) = elim (Bool-cases (p r)) [
    | inl e ↦ rw e
    | inr e ↦ rw e (is_empty-picked p rs)
  ]

  -- The verdict returns the arc to Execution exactly if some artifact ran and failed: neither a
  -- finding nobody could check nor one that passed can block.
  pub dispose_blocks_iff :
      (rs : List (Adjudicated F)) → returns_to_execution (dispose rs) ≡ any was_confirmed rs
  unfolding returns_to_execution
  dispose_blocks_iff rs = rw dispose-eq (is_empty-picked was_confirmed rs)
