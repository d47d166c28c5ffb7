-- ===== src/Judge/Laws.antt =====
-- What a score says of its checks.
use agentic_dev_harness.Shared.{
  ◌≡◌, refl, ap, suc, ◌↔◌, ◌≢◌, ◌⊎◌, inl, inr, true, List, [], ◌∷◌, String, All, length, eqb, ◌≤◌,
  arith, Bool-cases,
}
use agentic_dev_harness.Adh.Error.{Error, ok, err, error_code, invalid}
use agentic_dev_harness.Float.{Float}
use agentic_dev_harness.Judge.{Library, Check, eval, Score, run_checks, score}

module _ (lib : Library) (float : Float) (output : String) where
  abbrev pub Passes : Check → Type 0
  Passes check = (eval lib check output).0 ≡ true

  passed-le : (checks : List Check) → (run_checks lib float output checks).0 ≤ length checks
  unfolding run_checks
  passed-le [] = omega arith
  passed-le (check ∷ checks) = ground (arith, passed-le checks)

  reasons : (checks : List Check) → length (run_checks lib float output checks).1 ≡ length checks
  unfolding run_checks
  reasons [] = refl
  reasons (check ∷ checks) = ap suc (reasons checks)

  passed-All :
      (checks : List Check)
      → ((run_checks lib float output checks).0 ≡ length checks) ↔ All Passes checks
  unfolding run_checks
  passed-All [] = (λ h. tt, λ h. refl)
  passed-All (check ∷ checks) =
      let ih = passed-All checks in
      let bound = passed-le checks in
      elim (Bool-cases (eval lib check output).0) [
        | inl e ↦ rw e (λ h. (refl, ih.0 (omega (arith, h))), λ h. omega (arith, ih.1 h.1))
        | inr e ↦ rw e (λ h. absurd (omega (arith, h, bound)), λ h. cc)
      ]

  -- A list of checks that is not empty is scored, and only such a list is; the empty one is invalid.
  -- A score has one reason for each check, and is hard 1 if every check passes and hard 0 otherwise.
  pub score_cases :
      (checks : List Check)
      → ((checks ≡ [])
          × (e : Error) × (score lib float output checks ≡ err e)
          × (error_code e ≡ invalid))
        ⊎ ((checks ≢ [])
            × (s : Score lib float) × (score lib float output checks ≡ ok s)
            × (length s.why ≡ length checks)
            × ((All Passes checks × (s.hard ≡ float.of_nat 1))
                ⊎ (¬ All Passes checks × (s.hard ≡ float.zero))))
  unfolding score error_code
  score_cases [] = inl (refl, _, refl, refl)
  score_cases (check ∷ checks) =
      let all_ = check ∷ checks in
      inr (
        λ k. cc,
        _,
        refl,
        reasons all_,
        elim (Bool-cases (eqb (run_checks lib float output all_).0 (length all_))) [
          | inl full ↦ inl ((passed-All all_).0 (ground (arith, full)), rw full refl)
          | inr short ↦
              inr (λ passes. ground (arith, short, (passed-All all_).1 passes), rw short refl)
        ],
      )
