-- ===== src/Shared/Sorting.antt =====
-- `sort.Slice` and `sort.Strings` as insertion sort by a Boolean order. Go leaves the order of
-- ties open; this model keeps the first of two ties first, so statements hold of one such order.
use Prim.Native.Nat.{ℕ, zero, suc}
use mathlib.Core.Path.{◌≡◌, refl, ap}
use mathlib.Core.Logic.{◌⊎◌, inl, inr}
use mathlib.Core.Bool.{Bool, true, false}
use mathlib.Core.List.{List, [], ◌∷◌, map, Memᴰ, Perm}
use mathlib.Core.List.Memᴰ
use mathlib.Core.List.Perm
use agentic_dev_harness.Shared.Tests.{if◌then◌else◌, Bool-cases}
use agentic_dev_harness.Shared.Lists.{take, length, All, All-at, All-of, All-take}

module _ {ℓ} {A : Type ℓ} (before : A → A → Bool) where
  abbrev pub insert_by : A → List A → List A
  insert_by a [] = a ∷ []
  insert_by a (x ∷ xs) = let rest = insert_by a xs in if before x a then x ∷ rest else a ∷ x ∷ xs

  abbrev pub sort_by : List A → List A
  sort_by [] = []
  sort_by (x ∷ xs) = insert_by x (sort_by xs)

  -- No member stands behind one that it must precede.
  abbrev pub IsSorted : List A → Type ℓ
  IsSorted [] = Unit
  IsSorted (x ∷ xs) = All (λ y. before y x ≡ false) xs × IsSorted xs

module _ {ℓ} {A : Type ℓ} (before : A → A → Bool) where
  pub insert_by-perm : (a : A) (xs : List A) → Perm (insert_by before a xs) (a ∷ xs)
  insert_by-perm a [] = Perm.refl _
  insert_by-perm a (x ∷ xs) = elim (Bool-cases (before x a)) [
    | inl e ↦ rw e (Perm.trans (Perm.cons x (insert_by-perm a xs)) (Perm.swap a x xs))
    | inr e ↦ rw e (Perm.refl _)
  ]

  pub sort_by-perm : (xs : List A) → Perm (sort_by before xs) xs
  sort_by-perm [] = Perm.refl _
  sort_by-perm (x ∷ xs) =
      Perm.trans (insert_by-perm x (sort_by before xs)) (Perm.cons x (sort_by-perm xs))

  pub All-insert_by {κ} :
      (P : A → Type κ) (a : A) (xs : List A) → P a → All P xs → All P (insert_by before a xs)
  All-insert_by P a [] pa h = (pa, tt)
  All-insert_by P a (x ∷ xs) pa h = elim (Bool-cases (before x a)) [
    | inl e ↦ rw e (h.0, All-insert_by P a xs pa h.1)
    | inr e ↦ rw e (pa, h)
  ]

  pub All-sort_by {κ} : (P : A → Type κ) (xs : List A) → All P xs → All P (sort_by before xs)
  All-sort_by P [] h = tt
  All-sort_by P (x ∷ xs) h = All-insert_by P x (sort_by before xs) h.0 (All-sort_by P xs h.1)

-- The two laws of a strict order that sorting rests on.
pub record IsStrict {ℓ} {A : Type ℓ} (before : A → A → Bool) : Type ℓ where
  pub asym : (a b : A) → before a b ≡ true → before b a ≡ false
  pub chain : (a b c : A) → before b a ≡ false → before c b ≡ false → before c a ≡ false

module _ {ℓ} {A : Type ℓ} {before : A → A → Bool} (strict : IsStrict before) where
  weaken :
      (a x : A) (xs : List A)
      → before x a ≡ false
      → All (λ y. before y x ≡ false) xs
      → All (λ y. before y a ≡ false) xs
  weaken a x [] h hs = tt
  weaken a x (y ∷ xs) h hs = (strict.chain a x y h hs.0, weaken a x xs h hs.1)

  insert_by-IsSorted :
      (a : A) (xs : List A) → IsSorted before xs → IsSorted before (insert_by before a xs)
  insert_by-IsSorted a [] s = (tt, tt)
  insert_by-IsSorted a (x ∷ xs) s = elim (Bool-cases (before x a)) [
    | inl e ↦ rw e (
      All-insert_by before (λ y. before y x ≡ false) a xs (strict.asym x a e) s.0,
      insert_by-IsSorted a xs s.1,
    )
    | inr e ↦ rw e ((e, weaken a x xs e s.0), s)
  ]

  pub sort_by-IsSorted : (xs : List A) → IsSorted before (sort_by before xs)
  sort_by-IsSorted [] = tt
  sort_by-IsSorted (x ∷ xs) = insert_by-IsSorted x (sort_by before xs) (sort_by-IsSorted xs)

-- Sorting images by their order is sorting by the order of the images.
module _ {ℓ κ} {A : Type ℓ} {B : Type κ} (before : B → B → Bool) (f : A → B) where
  insert_by-map :
      (a : A) (xs : List A)
      → insert_by before (f a) (map f xs) ≡ map f (insert_by (λ x y. before (f x) (f y)) a xs)
  insert_by-map a [] = refl
  insert_by-map a (x ∷ xs) = elim (Bool-cases (before (f x) (f a))) [
    | inl e ↦ rw e (ap (λ l. f x ∷ l) (insert_by-map a xs))
    | inr e ↦ rw e refl
  ]

  pub sort_by-map :
      (xs : List A) → sort_by before (map f xs) ≡ map f (sort_by (λ x y. before (f x) (f y)) xs)
  sort_by-map [] = refl
  sort_by-map (x ∷ xs) =
      rw (sort_by-map xs) (insert_by-map x (sort_by (λ y z. before (f y) (f z)) xs))

module _ {ℓ} {A : Type ℓ} (before : A → A → Bool) where
  -- A member of a sorted list is among the first `n`, or these are `n` and none stands behind it.
  pub take-or_after :
      (n : ℕ) (xs : List A) (a : A)
      → IsSorted before xs
      → Memᴰ a xs
      → Memᴰ a (take n xs) ⊎ ((length (take n xs) ≡ n) × All (λ x. before a x ≡ false) (take n xs))
  take-or_after n [] a s m = absurd (Memᴰ.not-nil m)
  take-or_after zero (x ∷ xs) a s m = inr (refl, tt)
  take-or_after (suc n) (x ∷ xs) a s m = elim (Memᴰ.cases_cons m) [
    | inl e ↦ inl (Memᴰ.head e)
    | inr later ↦ elim (take-or_after n xs a s.1 later) [
      | inl here ↦ inl (Memᴰ.tail here)
      | inr (full, behind) ↦
          inr (ap suc full, (All-at (λ y. before y x ≡ false) xs s.0 later, behind))
    ]
  ]

  -- A list in one order is in every order that tells less apart.
  pub IsSorted-weaken :
      (after : A → A → Bool)
      → ((a b : A) → before a b ≡ false → after a b ≡ false)
      → (xs : List A) → IsSorted before xs
      → IsSorted after xs
  IsSorted-weaken after less [] s = tt
  IsSorted-weaken after less (x ∷ xs) s = (heads xs s.0, IsSorted-weaken after less xs s.1)
    where
      heads : (ys : List A) → All (λ y. before y x ≡ false) ys → All (λ y. after y x ≡ false) ys
      heads [] h = tt
      heads (y ∷ ys) h = (less y x h.0, heads ys h.1)

  pub take-IsSorted : (n : ℕ) (xs : List A) → IsSorted before xs → IsSorted before (take n xs)
  take-IsSorted zero xs s = tt
  take-IsSorted (suc n) [] s = tt
  take-IsSorted (suc n) (x ∷ xs) s = (All-take _ n xs s.0, take-IsSorted n xs s.1)

  Memᴰ-insert_by : (a : A) (xs : List A) {b : A} → Memᴰ b (a ∷ xs) → Memᴰ b (insert_by before a xs)
  Memᴰ-insert_by a [] m = m
  Memᴰ-insert_by a (x ∷ xs) m =
      let ih = λ (k : _). Memᴰ-insert_by a xs k in
      elim (Bool-cases (before x a)) [
        | inl e ↦ rw e (elim (Memᴰ.cases_cons m) [
          | inl here ↦ Memᴰ.tail (ih (Memᴰ.head here))
          | inr later ↦ elim (Memᴰ.cases_cons later) [
            | inl next ↦ Memᴰ.head next
            | inr far ↦ Memᴰ.tail (ih (Memᴰ.tail far))
          ]
        ])
        | inr e ↦ rw e m
      ]

  pub Memᴰ-sort_by : (xs : List A) {b : A} → Memᴰ b xs → Memᴰ b (sort_by before xs)
  Memᴰ-sort_by [] m = m
  Memᴰ-sort_by (x ∷ xs) m = Memᴰ-insert_by x (sort_by before xs) (elim (Memᴰ.cases_cons m) [
    | inl here ↦ Memᴰ.head here
    | inr later ↦ Memᴰ.tail (Memᴰ-sort_by xs later)
  ])

  pub Memᴰ-of_sort_by : (xs : List A) {b : A} → Memᴰ b (sort_by before xs) → Memᴰ b xs
  Memᴰ-of_sort_by xs m =
      All-at (λ b. Memᴰ b xs) (sort_by before xs)
        (All-sort_by before (λ b. Memᴰ b xs) xs (All-of (λ b. Memᴰ b xs) xs (λ a k. k))) m
