-- ===== src/Execconfig/Laws.antt =====
-- When executable configuration may be used.
use mathlib.Core.Path.{subst}
use agentic_dev_harness.Shared.{
  ◌≡◌, refl, sym, ap, ◌∙◌, ◌↔◌, ◌≢◌, ◌⊎◌, inl, inr, Bool, true, Option, none, some, List, [], ◌∷◌,
  String, ◌==◌, eq_iff, arith, All, Bool-cases, sort_by, insert_by, some_inj,
}
use agentic_dev_harness.Adh.Error.{Result, ok, err, ok_injective, ◌>>=◌}
use agentic_dev_harness.Execconfig.{
  Drift, Work, absent, present, unreadable, Tree, compare, op, against, added, by_path, refusal,
  refused, sorted, reason_of, check_from, check, require,
}

insert_by-nil :
    {A : Type 0} (before : A → A → Bool) (a : A) (xs : List A) → insert_by before a xs ≢ []
insert_by-nil before a [] h = cc
insert_by-nil before a (x ∷ xs) h = elim (Bool-cases (before x a)) [
  | inl e ↦ cc (rw e at h)
  | inr e ↦ cc (rw e at h)
]

present_inj : {s t : String} → present s ≡ present t → s ≡ t
present_inj h = cc

refusal-nil : (drift : List Drift) → (refusal (sort_by by_path drift) ≡ none) ↔ (drift ≡ [])
unfolding refusal
refusal-nil [] = (λ h. refl, λ h. refl)
refusal-nil (d ∷ drift) = (
  λ h. absurd (
      nonempty (insert_by by_path d (sort_by by_path drift))
        (insert_by-nil by_path d (sort_by by_path drift)) h),
  λ h. cc,
)
  where
    nonempty : (ds : List Drift) → ds ≢ [] → refusal ds ≡ none → ⊥
    nonempty [] n h = n refl
    nonempty (d ∷ ds) n h = cc

module _ (tree : Tree) where
  -- A path that HEAD can be asked about, and that is absent from the working tree or stands there as
  -- HEAD holds it.
  abbrev pub IsCommitted : String → Type 0
  IsCommitted path =
      (head : Option String) × (tree.head path ≡ ok head)
      × ((tree.work path ≡ absent)
          ⊎ ((text : String) × (tree.work path ≡ present text) × (head ≡ some text)))

  compare-eq :
      (head : Option String) (text : String) → (compare head (some text) ≡ "") ↔ (head ≡ some text)
  unfolding compare
  compare-eq none text = (λ h. cc, λ h. cc)
  compare-eq (some head) text = elim (Bool-cases (head == text)) [
    | inl e ↦ rw e (λ h. ap some ((eq_iff head text).0 e), λ h. refl)
    | inr e ↦ rw e (λ h. cc, λ h. absurd (ground (arith, e, (eq_iff head text).1 (some_inj h))))
  ]

  against-eq :
      (head : Option String) (work : Work)
      → (against head work ≡ ok "")
        ↔ ((work ≡ absent) ⊎ ((text : String) × (work ≡ present text) × (head ≡ some text)))
  unfolding compare
  against-eq head absent = (λ h. inl refl, λ h. refl)
  against-eq head (unreadable e) = (λ h. cc, λ h. elim h [ inl e ↦ cc | inr k ↦ cc (k.1) ])
  against-eq head (present text) =
      let (to, from) = compare-eq head text in
      (
        λ h. inr (text, refl, to (ok_injective h)),
        λ h. elim h [
          | inl e ↦ cc
          | inr (text', e, same) ↦ ap ok (from (same ∙ ap some (sym (present_inj e))))
        ],
      )

  reason_of-IsCommitted : (path : String) → (reason_of tree path ≡ ok "") ↔ IsCommitted path
  unfolding reason_of
  reason_of-IsCommitted path = split (tree.head path) refl
    where
      split :
          (r : Result (Option String))
          → tree.head path ≡ r
          → ((op r >>= λ head. against head (tree.work path)) ≡ ok "") ↔ IsCommitted path
      split (err e) h = (λ k. cc, λ k. let (head, at, rest) = k in cc (h, at))
      split (ok head) h =
          let (to, from) = against-eq head (tree.work path) in
          (
            λ k. (head, h, to k),
            λ k.
                let (head', at, rest) = k in
                let same : head' ≡ head = ok_injective (sym at ∙ h) in
                from (
                  subst
                    (λ x.
                      (tree.work path ≡ absent)
                      ⊎ ((text : String) × (tree.work path ≡ present text) × (x ≡ some text)))
                    same rest),
          )

  added-nil :
      (path reason : String) (drift : List Drift)
      → (added (record { path = path; reason = reason }) drift ≡ [])
        ↔ ((reason ≡ "") × (drift ≡ []))
  added-nil path reason drift = elim (Bool-cases (reason == "")) [
    | inl e ↦ rw e (λ h. ((eq_iff reason "").0 e, h), λ h. h.1)
    | inr e ↦ rw e (λ h. cc, λ h. absurd (ground (arith, e, (eq_iff reason "").1 h.0)))
  ]

  step-nil :
      (path : String) (r : Result String) (rs : Result (List Drift))
      → ((r >>= λ reason.
            rs >>= λ drift. ok (added (record { path = path; reason = reason }) drift))
          ≡ ok [])
        ↔ ((r ≡ ok "") × (rs ≡ ok []))
  step-nil path (err e) rs = (λ h. cc, λ h. cc (h.0))
  step-nil path (ok reason) (err e) = (λ h. cc, λ h. cc (h.1))
  step-nil path (ok reason) (ok drift) =
      let (to, from) = added-nil path reason drift in
      (
        λ h. (ap ok (to (ok_injective h)).0, ap ok (to (ok_injective h)).1),
        λ h. ap ok (from (ok_injective h.0, ok_injective h.1)),
      )

  check_from-IsCommitted :
      (paths : List String) → (check_from tree paths ≡ ok []) ↔ All IsCommitted paths
  unfolding check_from
  check_from-IsCommitted [] = (λ h. tt, λ h. refl)
  check_from-IsCommitted (path ∷ paths) =
      let (to, from) = check_from-IsCommitted paths in
      let (one, back) = reason_of-IsCommitted path in
      let (split, join) = step-nil path (reason_of tree path) (check_from tree paths) in
      (λ h. (one (split h).0, to (split h).1), λ h. join (back h.0, from h.1))

  sorted-nil : (r : Result (List Drift)) → (refused (sorted r) ≡ none) ↔ (r ≡ ok [])
  sorted-nil (err e) = (λ h. cc, λ h. cc)
  sorted-nil (ok drift) =
      let (to, from) = refusal-nil drift in (λ h. ap ok (to h), λ h. from (ok_injective h))

  -- In a repository, files may be used exactly if HEAD can be asked about each, and each is absent
  -- from the working tree or stands there byte for byte as HEAD holds it.
  pub require_iff :
      (paths : List String)
      → tree.is_repo ≡ true
      → (require tree paths ≡ none) ↔ All IsCommitted paths
  unfolding require check check_from reason_of
  require_iff paths repo =
      let (to, from) = check_from-IsCommitted paths in
      let (split, join) = sorted-nil (check_from tree paths) in
      rw repo (λ h. to (split h), λ h. join (from h))
