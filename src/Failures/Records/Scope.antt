-- ===== src/Failures/Records/Scope.antt =====
-- The scope of a class, described without the loop.
use agentic_dev_harness.Shared.{
  ℕ, suc, ◌≡◌, refl, sym, ap, ◌∙◌, inl, inr, Bool, true, false, ◌&&◌, ◌||◌, List, [], ◌∷◌, String,
  ◌==◌, if◌then◌else◌, any, add, add_all, has, has-add, insert_by, sort_strings, str_lt, IsSorted,
  sort_by-IsSorted, Bool-cases, eq_iff, arith,
}
use agentic_dev_harness.Shared.Order.{str_lt-IsStrict}
use agentic_dev_harness.Critic.Coverage.{occurrences}
use agentic_dev_harness.Failures.{FailureRecord}
use agentic_dev_harness.Failures.Records.{scope_loop, scope_for}

has-add_all :
    (j : String) (xs seen : List String) → has j (add_all xs seen) ≡ (has j xs || has j seen)
has-add_all j [] seen = refl
has-add_all j (x ∷ xs) seen =
    let ih = has-add_all j xs (add x seen) in
    ground (arith, ih, has-add j x seen, Bool-cases (has j xs), Bool-cases (x == j))

-- How often a set of distinct texts holds a text.
abbrev pub once : Bool → ℕ
once true = 1
once false = 0

abbrev IsDistinct : List String → Type 0
IsDistinct seen = (j : String) → occurrences j seen ≡ once (has j seen)

nil-IsDistinct : IsDistinct []
unfolding occurrences
nil-IsDistinct j = refl

add-IsDistinct : (x : String) (seen : List String) → IsDistinct seen → IsDistinct (add x seen)
unfolding occurrences
add-IsDistinct x seen h j = elim (Bool-cases (has x seen)) [
  | inl e ↦ rw e (h j)
  | inr e ↦ rw e (elim (Bool-cases (x == j)) [
    | inl same ↦
        rw same (ap suc (h j ∙ ap once (ap (λ k. has k seen) (sym ((eq_iff x j).0 same)) ∙ e)))
    | inr other ↦ rw other (h j)
  ])
]

add_all-IsDistinct : (xs seen : List String) → IsDistinct seen → IsDistinct (add_all xs seen)
add_all-IsDistinct [] seen h = h
add_all-IsDistinct (x ∷ xs) seen h = add_all-IsDistinct xs (add x seen) (add-IsDistinct x seen h)

occurrences-insert_by :
    (j x : String) (xs : List String)
    → occurrences j (insert_by str_lt x xs) ≡ (occurrences j (x ∷ xs))
unfolding occurrences
occurrences-insert_by j x [] = refl
occurrences-insert_by j x (y ∷ ys) =
    let ih = occurrences-insert_by j x ys in
    elim (Bool-cases (str_lt y x)) [
      | inl e ↦ rw e (ground (arith, ih, Bool-cases (x == j), Bool-cases (y == j)))
      | inr e ↦ rw e refl
    ]

occurrences-sort_strings :
    (j : String) (xs : List String) → occurrences j (sort_strings xs) ≡ occurrences j xs
unfolding occurrences
occurrences-sort_strings j [] = refl
occurrences-sort_strings j (x ∷ xs) =
    occurrences-insert_by j x (sort_strings xs)
    ∙ ap (λ n. if x == j then suc n else n) (occurrences-sort_strings j xs)

-- Whether a record of the class has the text in one of its two fields.
abbrev pub named_by : (FailureRecord → List String) → String → List FailureRecord → String → Bool
named_by field class recs text = any (λ r. (r.class == class) && has text (field r)) recs

-- One of the two sets that the loop of `ScopeFor` grows.
gathered : (FailureRecord → List String) → List FailureRecord → String → List String → List String
gathered field [] class seen = seen
gathered field (r ∷ recs) class seen =
    gathered field recs class (if r.class == class then add_all (field r) seen else seen)

scope_loop-gathered :
    (recs : List FailureRecord) (class : String) (labels paths : List String)
    → scope_loop recs class labels paths
      ≡ (gathered (λ r. r.labels) recs class labels, gathered (λ r. r.paths) recs class paths)
unfolding scope_loop gathered
scope_loop-gathered [] class labels paths = refl
scope_loop-gathered (r ∷ recs) class labels paths =
    scope_loop-gathered recs class (if r.class == class then add_all r.labels labels else labels)
      (if r.class == class then add_all r.paths paths else paths)

module _ (field : FailureRecord → List String) (class : String) where
  gathered-IsDistinct :
      (recs : List FailureRecord) (seen : List String)
      → IsDistinct seen
      → IsDistinct (gathered field recs class seen)
  unfolding gathered
  gathered-IsDistinct [] seen h = h
  gathered-IsDistinct (r ∷ recs) seen h = elim (Bool-cases (r.class == class)) [
    | inl e ↦
        rw e
          (gathered-IsDistinct recs (add_all (field r) seen) (add_all-IsDistinct (field r) seen h))
    | inr e ↦ rw e (gathered-IsDistinct recs seen h)
  ]

  has-gathered :
      (text : String) (recs : List FailureRecord) (seen : List String)
      → has text (gathered field recs class seen)
        ≡ (named_by field class recs text || has text seen)
  unfolding gathered
  has-gathered text [] seen = refl
  has-gathered text (r ∷ recs) seen =
      let rest = named_by field class recs text in
      elim (Bool-cases (r.class == class)) [
        | inl e ↦ rw e (
            has-gathered text recs (add_all (field r) seen)
            ∙ ap (λ b. rest || b) (has-add_all text (field r) seen)
            ∙ shuffle rest (has text (field r)) (has text seen))
        | inr e ↦ rw e (has-gathered text recs seen)
      ]
    where
      shuffle : (a b c : Bool) → (a || (b || c)) ≡ ((b || a) || c)
      shuffle true true c = refl
      shuffle true false c = refl
      shuffle false true c = refl
      shuffle false false c = refl

  occurrences-gathered :
      (recs : List FailureRecord) (text : String)
      → occurrences text (sort_strings (gathered field recs class []))
        ≡ once (named_by field class recs text)
  occurrences-gathered recs text =
      occurrences-sort_strings text (gathered field recs class [])
      ∙ gathered-IsDistinct recs [] nil-IsDistinct text
      ∙ ap once (has-gathered text recs [] ∙ right (named_by field class recs text))
    where
      right : (b : Bool) → (b || false) ≡ b
      right true = refl
      right false = refl

-- The scope of a class: both lists are in the order of the texts, and each holds, exactly once, every
-- label (path) that a record of the class has, and nothing else.
pub scope_for-gathers :
    (recs : List FailureRecord) (class : String)
    → IsSorted str_lt (scope_for recs class).0
      × IsSorted str_lt (scope_for recs class).1
      × ((label : String)
          → occurrences label (scope_for recs class).0
            ≡ once (named_by (λ r. r.labels) class recs label))
      × ((path : String)
          → occurrences path (scope_for recs class).1
            ≡ once (named_by (λ r. r.paths) class recs path))
unfolding scope_for
scope_for-gathers recs class = rw (scope_loop-gathered recs class [] []) (
  sort_by-IsSorted str_lt-IsStrict (gathered (λ r. r.labels) recs class []),
  sort_by-IsSorted str_lt-IsStrict (gathered (λ r. r.paths) recs class []),
  occurrences-gathered (λ r. r.labels) class recs,
  occurrences-gathered (λ r. r.paths) class recs,
)
