-- ===== src/Lesson/Laws.antt =====
-- Distilling failure notes, described without the map.
use mathlib.Core.List.{Memᴰ, append_assoc, append-nil}
use mathlib.Core.List.Memᴰ
use agentic_dev_harness.Shared.{
  ◌≡◌, refl, sym, ap, ◌∙◌, ◌↔◌, ◌≢◌, inl, inr, false, List, [], ◌∷◌, ◌++◌, map, String, ◌==◌, All,
  All-at, All-insert, IsKeyed, insert-IsKeyed, Memᴰ-of_lookup, lookup-of_Memᴰ, IsSorted, IsStrict,
  sort_by-IsSorted, Memᴰ-sort_by, Memᴰ-of_sort_by, filter, is_empty, Bool-cases, Option-cases,
  lookup, lookup-insert, eq_iff, arith,
}
use agentic_dev_harness.Shared.Order.{str_lt-IsStrict}
use agentic_dev_harness.Lesson.{
  Lesson, class_of, notes_or_none, group, record_note, lesson_of, by_class, distill,
}

-- The notes of a class, in order.
abbrev pub of_class : String → List String → List String
of_class class notes = filter (λ note. class_of note == class) notes

abbrev Groups : Type 0
Groups = List (String × List String)

lookup-record_note :
    (class note : String) (seen : Groups)
    → notes_or_none (lookup class (record_note note seen))
      ≡ notes_or_none (lookup class seen) ++ of_class class (note ∷ [])
unfolding record_note
lookup-record_note class note seen = elim (Bool-cases (class_of note == class)) [
  | inl e ↦
      let found =
        lookup-insert (class_of note) class
          (notes_or_none (lookup (class_of note) seen) ++ note ∷ []) seen in
      rw found (rw e (ap (λ k. notes_or_none (lookup k seen) ++ note ∷ []) ((eq_iff _ class).0 e)))
  | inr e ↦
      let found =
        lookup-insert (class_of note) class
          (notes_or_none (lookup (class_of note) seen) ++ note ∷ []) seen in
      rw found (rw e (sym (append-nil _)))
]

of_class-cons :
    (class note : String) (notes : List String)
    → of_class class (note ∷ notes) ≡ of_class class (note ∷ []) ++ of_class class notes
of_class-cons class note notes = ground arith

lookup-group :
    (class : String) (seen : Groups) (notes : List String)
    → notes_or_none (lookup class (group seen notes))
      ≡ notes_or_none (lookup class seen) ++ of_class class notes
unfolding group
lookup-group class seen [] = sym (append-nil _)
lookup-group class seen (note ∷ notes) =
    lookup-group class (record_note note seen) notes
    ∙ ap (λ l. l ++ of_class class notes) (lookup-record_note class note seen)
    ∙ append_assoc (notes_or_none (lookup class seen)) (of_class class (note ∷ []))
        (of_class class notes)
    ∙ ap (λ l. notes_or_none (lookup class seen) ++ l) (sym (of_class-cons class note notes))

group-IsKeyed : (seen : Groups) (notes : List String) → IsKeyed seen → IsKeyed (group seen notes)
unfolding group record_note
group-IsKeyed seen [] h = h
group-IsKeyed seen (note ∷ notes) h =
    group-IsKeyed (record_note note seen) notes (insert-IsKeyed (class_of note) _ seen h)

-- No class stands without a note.
abbrev IsFull : String × List String → Type 0
IsFull entry = is_empty entry.1 ≡ false

is_empty-snoc : (xs : List String) (x : String) → is_empty (xs ++ x ∷ []) ≡ false
is_empty-snoc [] x = refl
is_empty-snoc (y ∷ xs) x = refl

group-IsFull :
    (seen : Groups) (notes : List String) → All IsFull seen → All IsFull (group seen notes)
unfolding group record_note
group-IsFull seen [] h = h
group-IsFull seen (note ∷ notes) h =
    group-IsFull (record_note note seen) notes
      (All-insert IsFull (class_of note) _ seen (is_empty-snoc _ note) h)

full_ne_nil : (xs : List String) → is_empty xs ≡ false → xs ≢ []
full_ne_nil xs h e = ground (arith, h, e)

Memᴰ-group :
    (class : String) (found notes : List String)
    → Memᴰ (class, found) (group [] notes) ↔ ((found ≢ []) × (found ≡ of_class class notes))
unfolding lookup
Memᴰ-group class found notes = (
  λ m. (
    full_ne_nil found (All-at IsFull (group [] notes) (group-IsFull [] notes tt) m),
    sym (
          ap notes_or_none
            (lookup-of_Memᴰ class (group [] notes) found (group-IsKeyed [] notes tt) m))
        ∙ lookup-group class [] notes,
  ),
  λ h. elim (Option-cases (lookup class (group [] notes))) [
    | inl e ↦ absurd (h.0 (h.1 ∙ sym (lookup-group class [] notes) ∙ ap notes_or_none e))
    | inr (l, e) ↦
        let same = h.1 ∙ sym (lookup-group class [] notes) ∙ ap notes_or_none e in
        rw same (Memᴰ-of_lookup class (group [] notes) l e)
  ],
)

unmap :
    (l : Lesson) (groups : Groups)
    → Memᴰ l (map lesson_of groups)
    → Memᴰ (l.class, l.instances) groups
unmap l [] m = absurd (Memᴰ.not-nil m)
unmap l (g ∷ groups) m =
    let ih = unmap l groups in
    elim (Memᴰ.cases_cons m) [
      | inl e ↦ Memᴰ.head (ap (λ (k : Lesson). (k.class, k.instances)) e)
      | inr later ↦ Memᴰ.tail (ih later)
    ]

by_class-IsStrict : IsStrict by_class
by_class-IsStrict = record {
  asym = λ a b. str_lt-IsStrict.asym a.class b.class;
  chain = λ a b c. str_lt-IsStrict.chain a.class b.class c.class;
}

-- Distilled lessons stand in the order of their classes. A lesson is among them exactly if it has
-- an instance and its instances are the notes of its class, all of them and in order.
pub distill_iff :
    (notes : List String)
    → IsSorted by_class (distill notes)
      × ((l : Lesson)
          → Memᴰ l (distill notes) ↔ ((l.instances ≢ []) × (l.instances ≡ of_class l.class notes)))
unfolding distill
distill_iff notes = (
  sort_by-IsSorted by_class-IsStrict (map lesson_of (group [] notes)),
  λ l. (
    λ m.
        (Memᴰ-group l.class l.instances notes).0
          (unmap l (group [] notes) (Memᴰ-of_sort_by by_class _ m)),
    λ h. Memᴰ-sort_by by_class _ (Memᴰ.map lesson_of ((Memᴰ-group l.class l.instances notes).1 h)),
  ),
)
