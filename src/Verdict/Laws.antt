-- ===== src/Verdict/Laws.antt =====
-- The guard against leakage between splits, described without its loop.
use mathlib.Core.List.{Memᴰ}
use mathlib.Core.List.Memᴰ
use agentic_dev_harness.Shared.{
  ◌≡◌, refl, sym, ap, ◌∙◌, ◌↔◌, inl, inr, false, Option, none, some, List, [], ◌∷◌, String, ◌==◌,
  if◌then◌else◌, Bool-cases, lookup, insert, lookup-insert, eq_iff, arith,
}
use agentic_dev_harness.Verdict.{SplitAssignment, differs, check_splits, validate_splits}

-- No task stands in two splits, among the assignments and those seen before.
record IsDisjoint (seen : List (String × String)) (as_ : List SplitAssignment) : Type 0 where
  among : (a b : SplitAssignment) → Memᴰ a as_ → Memᴰ b as_ → a.id ≡ b.id → a.split ≡ b.split
  before :
      (a : SplitAssignment) → Memᴰ a as_ → (s : String) → lookup a.id seen ≡ some s → s ≡ a.split

differs_iff :
    (o : Option String) (split : String)
    → (differs o split ≡ false) ↔ ((s : String) → o ≡ some s → s ≡ split)
differs_iff none split = (λ h s e. cc, λ h. refl)
differs_iff (some t) split = (
  λ h s e. ground (arith, h, e, eq_iff t split),
  λ h. let same = (eq_iff t split).1 (h t refl) in rw same refl,
)

-- What is seen of an id, once an assignment was put in front.
seen-insert :
    (a : SplitAssignment) (seen : List (String × String)) (id s : String)
    → lookup id (insert a.id a.split seen) ≡ (if a.id == id then some a.split else lookup id seen)
seen-insert a seen id s = lookup-insert a.id id a.split seen

-- One step of the loop: the first assignment agrees with what was seen, and the rest is disjoint
-- once it is seen too.
IsDisjoint-before :
    (seen : List (String × String)) (a : SplitAssignment) (as_ : List SplitAssignment)
    → differs (lookup a.id seen) a.split ≡ false
    → IsDisjoint (insert a.id a.split seen) as_
    → (x : SplitAssignment) → Memᴰ x as_
    → (s : String) → lookup x.id seen ≡ some s
    → s ≡ x.split
IsDisjoint-before seen a as_ fits rest x m s found = elim (Bool-cases (a.id == x.id)) [
  | inl same ↦
      let now = rest.before x m a.split (lookup-insert a.id x.id a.split seen ∙ rw same refl) in
      let ids = (eq_iff a.id x.id).0 same in
      (differs_iff (lookup a.id seen) a.split).0 fits s (rw ids found) ∙ now
  | inr other ↦ rest.before x m s (lookup-insert a.id x.id a.split seen ∙ rw other found)
]

IsDisjoint-first :
    (seen : List (String × String)) (a : SplitAssignment) (as_ : List SplitAssignment)
    → IsDisjoint (insert a.id a.split seen) as_
    → (x : SplitAssignment) → Memᴰ x as_
    → a.id ≡ x.id
    → a.split ≡ x.split
IsDisjoint-first seen a as_ rest x m ids =
    let same = (eq_iff a.id x.id).1 ids in
    rest.before x m a.split (lookup-insert a.id x.id a.split seen ∙ rw same refl)

IsDisjoint-cons :
    (seen : List (String × String)) (a : SplitAssignment) (as_ : List SplitAssignment)
    → differs (lookup a.id seen) a.split ≡ false
    → IsDisjoint (insert a.id a.split seen) as_
    → IsDisjoint seen (a ∷ as_)
IsDisjoint-cons seen a as_ fits rest = record {
  among = λ x y mx my ids. elim (Memᴰ.cases_cons mx) [
    | inl ex ↦ elim (Memᴰ.cases_cons my) [
      | inl ey ↦ ap (λ z. z.split) ex ∙ sym (ap (λ z. z.split) ey)
      | inr my' ↦
          ap (λ z. z.split) ex
          ∙ IsDisjoint-first seen a as_ rest y my' (sym (ap (λ z. z.id) ex) ∙ ids)
    ]
    | inr mx' ↦ elim (Memᴰ.cases_cons my) [
      | inl ey ↦
          sym (IsDisjoint-first seen a as_ rest x mx' (sym (ids ∙ ap (λ z. z.id) ey)))
          ∙ sym (ap (λ z. z.split) ey)
      | inr my' ↦ rest.among x y mx' my' ids
    ]
  ];
  before = λ x mx s found. elim (Memᴰ.cases_cons mx) [
    | inl ex ↦
        (differs_iff (lookup a.id seen) a.split).0 fits s
          (ap (λ z. lookup z seen) (sym (ap (λ z. z.id) ex)) ∙ found)
        ∙ sym (ap (λ z. z.split) ex)
    | inr mx' ↦ IsDisjoint-before seen a as_ fits rest x mx' s found
  ];
}

IsDisjoint-uncons :
    (seen : List (String × String)) (a : SplitAssignment) (as_ : List SplitAssignment)
    → IsDisjoint seen (a ∷ as_)
    → IsDisjoint (insert a.id a.split seen) as_
IsDisjoint-uncons seen a as_ d = record {
  among = λ x y mx my. d.among x y (Memᴰ.tail mx) (Memᴰ.tail my);
  before = λ x mx s found. elim (Bool-cases (a.id == x.id)) [
    | inl same ↦
        let now = sym (lookup-insert a.id x.id a.split seen) ∙ found in
        cc (rw same at now, d.among a x (Memᴰ.head refl) (Memᴰ.tail mx) ((eq_iff a.id x.id).0 same))
    | inr other ↦
        let now = sym (lookup-insert a.id x.id a.split seen) ∙ found in
        d.before x (Memᴰ.tail mx) s (rw other at now)
  ];
}

check_splits-IsDisjoint :
    (seen : List (String × String)) (as_ : List SplitAssignment)
    → check_splits seen as_ ≡ none
    → IsDisjoint seen as_
unfolding check_splits
check_splits-IsDisjoint seen [] h = record {
  among = λ a b m. absurd (Memᴰ.not-nil m);
  before = λ a m. absurd (Memᴰ.not-nil m);
}
check_splits-IsDisjoint seen (a ∷ as_) h = elim (Bool-cases (differs (lookup a.id seen) a.split)) [
  | inl clash ↦ (let bad = rw clash at h in absurd cc)
  | inr fits ↦
      let rest = rw fits at h in
      IsDisjoint-cons seen a as_ fits (check_splits-IsDisjoint (insert a.id a.split seen) as_ rest)
]

IsDisjoint-check_splits :
    (seen : List (String × String)) (as_ : List SplitAssignment)
    → IsDisjoint seen as_
    → check_splits seen as_ ≡ none
unfolding check_splits
IsDisjoint-check_splits seen [] d = refl
IsDisjoint-check_splits seen (a ∷ as_) d =
    let fits = (differs_iff (lookup a.id seen) a.split).1 (d.before a (Memᴰ.head refl)) in
    rw fits
      (IsDisjoint-check_splits (insert a.id a.split seen) as_ (IsDisjoint-uncons seen a as_ d))

-- Assignments pass exactly when any two of them that name the same task name the same split.
pub validate_splits_iff :
    (as_ : List SplitAssignment)
    → (validate_splits as_ ≡ none)
      ↔ ((a b : SplitAssignment) → Memᴰ a as_ → Memᴰ b as_ → a.id ≡ b.id → a.split ≡ b.split)
unfolding validate_splits lookup
validate_splits_iff as_ = (
  λ h. (check_splits-IsDisjoint [] as_ h).among,
  λ among.
      IsDisjoint-check_splits [] as_ record { among = among; before = λ a m s found. absurd cc },
)
