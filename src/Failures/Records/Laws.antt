-- ===== src/Failures/Records/Laws.antt =====
-- What is counted and what is gathered from the records of a class.
use agentic_dev_harness.Shared.{
  ℕ, zero, suc, ◌+◌, ◌≡◌, refl, ap, ◌∙◌, inl, inr, Bool, true, false, not, ◌&&◌, Option, none, some,
  List, [], ◌∷◌, String, ◌==◌, if◌then◌else◌, length, lookup, insert, lookup-insert, add, add_all,
  Bool-cases, eq_iff, arith,
}
use agentic_dev_harness.Failures.{FailureRecord}
use agentic_dev_harness.Failures.Records.{
  or_none, strata_sets, sizes, strata_count, or_zero, cause_loop, root_cause_counts,
}

-- The time strata of a class's records, in their order, without the empty ones.
unfoldable pub strata_of : List FailureRecord → String → List String
strata_of [] class = []
strata_of (r ∷ recs) class =
    let rest = strata_of recs class in
    if r.class == class && not (r.stratum == "") then r.stratum ∷ rest else rest

-- How many different texts there are, and none for no text.
abbrev pub spread : List String → Option ℕ
spread [] = none
spread (x ∷ xs) = some (length (add_all (x ∷ xs) []))

-- A set that was extended, and none where there is none and nothing to add.
abbrev extended : Option (List String) → List String → Option (List String)
extended set [] = set
extended set (x ∷ xs) = some (add_all (x ∷ xs) (or_none set))

extended-add :
    (set : Option (List String)) (x : String) (xs : List String)
    → extended (some (add x (or_none set))) xs ≡ extended set (x ∷ xs)
extended-add set x [] = refl
extended-add set x (y ∷ ys) = refl

lookup-strata_sets :
    (recs : List FailureRecord) (class : String) (sets : List (String × List String))
    → lookup class (strata_sets recs sets) ≡ extended (lookup class sets) (strata_of recs class)
unfolding strata_sets strata_of
lookup-strata_sets [] class sets = refl
lookup-strata_sets (r ∷ recs) class sets = elim (Bool-cases (r.stratum == "")) [
  | inl e ↦ rw e (lookup-strata_sets recs class sets ∙ skip (r.class == class))
  | inr e ↦ rw e (
      lookup-strata_sets recs class
        (insert r.class (add r.stratum (or_none (lookup r.class sets))) sets)
      ∙ ap (λ set. extended set (strata_of recs class))
          (lookup-insert r.class class (add r.stratum (or_none (lookup r.class sets))) sets)
      ∙ elim (Bool-cases (r.class == class)) [
        | inl same ↦
            rw (same, (eq_iff r.class class).0 same)
              (extended-add (lookup class sets) r.stratum (strata_of recs class))
        | inr other ↦ rw other refl
      ])
]
  where
    skip :
        (b : Bool)
        → extended (lookup class sets) (strata_of recs class)
          ≡ extended
              (lookup class sets)
              (if b && not true then r.stratum ∷ strata_of recs class else strata_of recs class)
    skip true = refl
    skip false = refl

abbrev sized : Option (List String) → Option ℕ
sized none = none
sized (some set) = some (length set)

lookup-sizes :
    (class : String) (sets : List (String × List String))
    → lookup class (sizes sets) ≡ sized (lookup class sets)
unfolding sizes lookup
lookup-sizes class [] = refl
lookup-sizes class ((k, set) ∷ sets) = elim (Bool-cases (k == class)) [
  | inl e ↦ rw e refl
  | inr e ↦ rw e (lookup-sizes class sets)
]

sized-extended : (xs : List String) → sized (extended none xs) ≡ spread xs
sized-extended [] = refl
sized-extended (x ∷ xs) = refl

-- A class's count is the number of its different time strata; a class without one has no count.
pub lookup-strata_count :
    (recs : List FailureRecord) (class : String)
    → lookup class (strata_count recs) ≡ spread (strata_of recs class)
unfolding strata_count lookup
lookup-strata_count recs class =
    lookup-sizes class (strata_sets recs [])
    ∙ ap sized (lookup-strata_sets recs class [])
    ∙ sized-extended (strata_of recs class)

-- How many records of the class have the root cause.
unfoldable pub caused : List FailureRecord → String → String → ℕ
caused [] class cause = 0
caused (r ∷ recs) class cause =
    let rest = caused recs class cause in
    if (r.class == class) && (r.root_cause == cause) then suc rest else rest

-- A count that grew, and none where there is none and nothing to count.
abbrev raised : Option ℕ → ℕ → Option ℕ
raised count zero = count
raised count (suc n) = some (suc n + or_zero count)

raised-suc :
    (count : Option ℕ) (n : ℕ) → raised (some (suc (or_zero count))) n ≡ raised count (suc n)
raised-suc count zero = ap some (omega arith)
raised-suc count (suc n) = ap some (omega arith)

lookup-cause_loop :
    (recs : List FailureRecord) (class cause : String)
    → (cause == "") ≡ false
    → (counts : List (String × ℕ))
    → lookup cause (cause_loop recs class counts)
      ≡ raised (lookup cause counts) (caused recs class cause)
unfolding cause_loop caused
lookup-cause_loop [] class cause named counts = refl
lookup-cause_loop (r ∷ recs) class cause named counts =
    let counted = insert r.root_cause (suc (or_zero (lookup r.root_cause counts))) counts in
    let ih = lookup-cause_loop recs class cause named in
    elim (Bool-cases (r.class == class)) [
      | inr e ↦ rw e (ih counts)
      | inl e ↦ elim (Bool-cases (r.root_cause == cause)) [
        | inl same ↦
            let at = (eq_iff r.root_cause cause).0 same in
            let full : (r.root_cause == "") ≡ false = ap (λ c. c == "") at ∙ named in
            rw (e, full, same)
              (ih counted
                ∙ ap (λ c. raised c (caused recs class cause))
                    (lookup-insert r.root_cause cause (suc (or_zero (lookup r.root_cause counts)))
                        counts
                      ∙ rw (same, at) refl)
                ∙ raised-suc (lookup cause counts) (caused recs class cause))
        | inr other ↦ elim (Bool-cases (r.root_cause == "")) [
          | inl empty ↦ rw (e, empty, other) (ih counts)
          | inr full ↦
              rw (e, full, other)
                (ih counted
                  ∙ ap (λ c. raised c (caused recs class cause))
                      (lookup-insert r.root_cause cause (suc (or_zero (lookup r.root_cause counts)))
                          counts
                        ∙ rw other refl))
        ]
      ]
    ]

abbrev pub present : ℕ → Option ℕ
present zero = none
present (suc n) = some (suc n)

raised-present : (n : ℕ) → raised none n ≡ present n
raised-present zero = refl
raised-present (suc n) = ap some (omega arith)

-- The count of a root cause is the number of the class's records that have it; a cause of none of
-- them has no count.
pub lookup-root_cause_counts :
    (recs : List FailureRecord) (class cause : String)
    → (cause == "") ≡ false
    → lookup cause (root_cause_counts recs class) ≡ present (caused recs class cause)
unfolding root_cause_counts lookup
lookup-root_cause_counts recs class cause named =
    lookup-cause_loop recs class cause named [] ∙ raised-present (caused recs class cause)
