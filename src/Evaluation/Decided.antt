-- ===== src/Evaluation/Decided.antt =====
-- What `Decide` promises: the condition of each disposition, in terms of the lists of the verdict.
use mathlib.Core.List.{Memᴰ}
use agentic_dev_harness.Shared.{
  ℕ, ◌≤◌, ◌<◌, ◌≡◌, refl, ◌≢◌, ◌↔◌, ◌⊎◌, inl, inr, true, false, List, [], ◌∷◌, is_empty, any,
  any-Memᴰ, Memᴰ-any, All, All-of, All-at, Bool-cases, arith,
}
use agentic_dev_harness.Adh.Finding.{Finding, structural, is_structural}
use agentic_dev_harness.Critic.Disposition.{Verdict, returns_to_execution, has_structural}
use agentic_dev_harness.Evaluation.Decide.{
  advance_to_ops, return_to_execution, fail, advance_with_reservation, decide,
}

is_empty_iff : {A : Type 0} (xs : List A) → (is_empty xs ≡ true) ↔ (xs ≡ [])
is_empty_iff [] = (λ h. refl, λ h. refl)
is_empty_iff (x ∷ xs) = (λ h. absurd cc, λ h. absurd cc)

not_empty_iff : {A : Type 0} (xs : List A) → (is_empty xs ≡ false) ↔ (xs ≢ [])
not_empty_iff [] = (λ h. absurd cc, λ h. absurd (h refl))
not_empty_iff (x ∷ xs) = (λ h k. cc, λ h. refl)

is_structural_iff : (f : Finding) → (is_structural f ≡ true) ↔ (f.class ≡ structural)
unfolding is_structural
is_structural_iff f = (λ h. ground arith, λ h. ground arith)

any_structural :
    (fs : List Finding)
    → (any is_structural fs ≡ true) ↔ ((f : Finding) × Memᴰ f fs × (f.class ≡ structural))
any_structural fs = (
  λ h. let (f, m, e) = any-Memᴰ is_structural fs h in (f, m, (is_structural_iff f).0 e),
  λ h. let (f, m, e) = h in Memᴰ-any is_structural fs f m ((is_structural_iff f).1 e),
)

any_structural-false :
    (fs : List Finding) → (any is_structural fs ≡ false) ↔ All (λ f. f.class ≢ structural) fs
any_structural-false fs = (
  λ h.
      All-of (λ f. f.class ≢ structural) fs
        (λ f m e. let some_ = (any_structural fs).1 (f, m, e) in ground (arith, h, some_)),
  λ h. elim (Bool-cases (any is_structural fs)) [
    | inr e ↦ e
    | inl e ↦
        let (f, m, bad) = (any_structural fs).0 e in
        absurd (All-at (λ f. f.class ≢ structural) fs h m bad)
  ],
)

module _ (v : Verdict) (reworks max_reworks : ℕ) where
  to_ops :
      (decide v reworks max_reworks ≡ advance_to_ops)
      ↔ ((is_empty v.confirmed ≡ true) × (is_empty v.reservations ≡ true))
  unfolding decide returns_to_execution has_structural
  to_ops = (λ h. ground arith, λ h. ground arith)

  with_reservation :
      (decide v reworks max_reworks ≡ advance_with_reservation)
      ↔ ((is_empty v.confirmed ≡ true) × (is_empty v.reservations ≡ false))
  unfolding decide returns_to_execution has_structural
  with_reservation = (λ h. ground arith, λ h. ground arith)

  to_execution : (decide v reworks max_reworks ≡ return_to_execution) ↔ (
      (is_empty v.confirmed ≡ false)
      × (any is_structural v.confirmed ≡ false)
      × (reworks < max_reworks))
  unfolding decide returns_to_execution has_structural
  to_execution = (λ h. ground arith, λ h. ground arith)

  to_failure : (decide v reworks max_reworks ≡ fail) ↔ (
      (is_empty v.confirmed ≡ false)
      × ((any is_structural v.confirmed ≡ true) ⊎ (max_reworks ≤ reworks)))
  unfolding decide returns_to_execution has_structural
  to_failure = (λ h. ground arith, λ h. ground arith)

-- Each disposition is made exactly under its own condition. Without a confirmed finding the arc
-- advances, with a reservation if one was recorded; with one it fails if a confirmed finding is
-- structural or the reworks have reached the budget, and returns to Execution otherwise.
pub decide_cases :
    (v : Verdict) (reworks max_reworks : ℕ)
    → ((decide v reworks max_reworks ≡ advance_to_ops)
        ↔ ((v.confirmed ≡ []) × (v.reservations ≡ [])))
      × ((decide v reworks max_reworks ≡ advance_with_reservation)
          ↔ ((v.confirmed ≡ []) × (v.reservations ≢ [])))
      × ((decide v reworks max_reworks ≡ return_to_execution) ↔ (
          (v.confirmed ≢ [])
          × All (λ f. f.class ≢ structural) v.confirmed
          × (reworks < max_reworks)))
      × ((decide v reworks max_reworks ≡ fail) ↔ (
          (v.confirmed ≢ [])
          × (((f : Finding) × Memᴰ f v.confirmed × (f.class ≡ structural))
              ⊎ (max_reworks ≤ reworks))))
decide_cases v reworks max_reworks =
    let (ops_to, ops_from) = to_ops v reworks max_reworks in
    let (noted_to, noted_from) = with_reservation v reworks max_reworks in
    let (back_to, back_from) = to_execution v reworks max_reworks in
    let (fail_to, fail_from) = to_failure v reworks max_reworks in
    let empty = is_empty_iff v.confirmed in
    let full = not_empty_iff v.confirmed in
    let sound = any_structural-false v.confirmed in
    let broken = any_structural v.confirmed in
    (
      (
        λ h. (empty.0 (ops_to h).0, (is_empty_iff v.reservations).0 (ops_to h).1),
        λ h. ops_from (empty.1 h.0, (is_empty_iff v.reservations).1 h.1),
      ),
      (
        λ h. (empty.0 (noted_to h).0, (not_empty_iff v.reservations).0 (noted_to h).1),
        λ h. noted_from (empty.1 h.0, (not_empty_iff v.reservations).1 h.1),
      ),
      (
        λ h. let (a, b, c) = back_to h in (full.0 a, sound.0 b, c),
        λ h. let (a, b, c) = h in back_from (full.1 a, sound.1 b, c),
      ),
      (
        λ h.
            (full.0 (fail_to h).0, elim (fail_to h).1 [ inl a ↦ inl (broken.0 a) | inr b ↦ inr b ]),
        λ h. fail_from (full.1 h.0, elim h.1 [ inl a ↦ inl (broken.1 a) | inr b ↦ inr b ]),
      ),
    )
