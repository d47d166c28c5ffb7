-- ===== src/Shared/Lists.antt =====
-- Lists measured by native numbers, predicates on all members, and the searches that the program
-- writes as loops over a slice.
use Prim.Native.Nat.{ℕ, zero, suc, ◌+◌, ◌≤◌}
use mathlib.Core.Path.{◌≡◌, refl, sym, ap, subst, ◌∙◌}
use mathlib.Core.Logic.{inl, inr, ◌↔◌}
use mathlib.Core.Bool.{Bool, true, false, ◌&&◌, ◌||◌}
use mathlib.Core.Option.{Option, none, some}
use mathlib.Core.List.{List, [], ◌∷◌, ◌++◌, map, Memᴰ}
use mathlib.Core.List.Memᴰ
use native.Mathlib.Omega.{arith}
use agentic_dev_harness.Shared.Tests.{if◌then◌else◌, Bool-cases}

module _ {ℓ} {A : Type ℓ} where
  abbrev pub length : List A → ℕ
  length [] = 0
  length (x ∷ xs) = suc (length xs)

  -- `len(xs) == 0`
  abbrev pub is_empty : List A → Bool
  is_empty [] = true
  is_empty (x ∷ xs) = false

  abbrev pub take : ℕ → List A → List A
  take zero xs = []
  take (suc n) [] = []
  take (suc n) (x ∷ xs) = x ∷ take n xs

  -- The members that pass a Boolean test, in order.
  abbrev pub filter : (A → Bool) → List A → List A
  filter p [] = []
  filter p (x ∷ xs) = let rest = filter p xs in if p x then x ∷ rest else rest

  abbrev pub any : (A → Bool) → List A → Bool
  any p [] = false
  any p (x ∷ xs) = p x || any p xs

  abbrev pub all : (A → Bool) → List A → Bool
  all p [] = true
  all p (x ∷ xs) = p x && all p xs

  -- The first member that passes a test.
  abbrev pub find? : (A → Bool) → List A → Option A
  find? p [] = none
  find? p (x ∷ xs) = let rest = find? p xs in if p x then some x else rest

  pub length-append : (xs ys : List A) → length (xs ++ ys) ≡ length xs + length ys
  length-append [] ys = omega arith
  length-append (x ∷ xs) ys = omega (arith, length-append xs ys)

  pub length-filter-le : (p : A → Bool) (xs : List A) → length (filter p xs) ≤ length xs
  length-filter-le p [] = omega arith
  length-filter-le p (x ∷ xs) = ground (arith, length-filter-le p xs)

  pub length-take-le : (n : ℕ) (xs : List A) → length (take n xs) ≤ n
  length-take-le zero xs = omega arith
  length-take-le (suc n) [] = omega arith
  length-take-le (suc n) (x ∷ xs) = omega (arith, length-take-le n xs)

pub length-map {ℓ κ} :
    {A : Type ℓ} {B : Type κ} (f : A → B) (xs : List A) → length (map f xs) ≡ length xs
length-map f [] = refl
length-map f (x ∷ xs) = ap suc (length-map f xs)

module _ {ℓ κ} {A : Type ℓ} where
  abbrev pub All : (A → Type κ) → List A → Type κ
  All P [] = Unit
  All P (x ∷ xs) = P x × All P xs

module _ {ℓ κ} {A : Type ℓ} (P : A → Type κ) where
  pub All-append : (xs ys : List A) → All P xs → All P ys → All P (xs ++ ys)
  All-append [] ys hx hy = hy
  All-append (x ∷ xs) ys hx hy = (hx.0, All-append xs ys hx.1 hy)

  pub All-filter : (p : A → Bool) (xs : List A) → All P xs → All P (filter p xs)
  All-filter p [] h = h
  All-filter p (x ∷ xs) h = elim (Bool-cases (p x)) [
    | inl e ↦ rw e (h.0, All-filter p xs h.1)
    | inr e ↦ rw e (All-filter p xs h.1)
  ]

  pub All-take : (n : ℕ) (xs : List A) → All P xs → All P (take n xs)
  All-take zero xs h = tt
  All-take (suc n) [] h = tt
  All-take (suc n) (x ∷ xs) h = (h.0, All-take n xs h.1)

pub All-weaken {ℓ κ κ'} :
    {A : Type ℓ} (P : A → Type κ) (Q : A → Type κ')
    → ((a : A) → P a → Q a)
    → (xs : List A) → All P xs
    → All Q xs
All-weaken P Q f [] h = tt
All-weaken P Q f (x ∷ xs) h = (f x h.0, All-weaken P Q f xs h.1)

abbrev pub concat_map {ℓ κ} : {A : Type ℓ} {B : Type κ} → (A → List B) → List A → List B
concat_map f [] = []
concat_map f (x ∷ xs) = f x ++ concat_map f xs

-- What a filter lets through passes its test.
pub filter-All {ℓ} : {A : Type ℓ} (p : A → Bool) (xs : List A) → All (λ x. p x ≡ true) (filter p xs)
filter-All p [] = tt
filter-All p (x ∷ xs) = elim (Bool-cases (p x)) [
  | inl e ↦ rw e (e, filter-All p xs)
  | inr e ↦ rw e (filter-All p xs)
]

module _ {ℓ} {A : Type ℓ} where
  -- A member of a list has what all have.
  pub All-at {κ} : (P : A → Type κ) (xs : List A) {a : A} → All P xs → Memᴰ a xs → P a
  All-at P [] h m = absurd (Memᴰ.not-nil m)
  All-at P (x ∷ xs) h m = elim (Memᴰ.cases_cons m) [
    | inl e ↦ subst P (sym e) h.0
    | inr later ↦ All-at P xs h.1 later
  ]

  pub All-of {κ} : (P : A → Type κ) (xs : List A) → ((a : A) → Memᴰ a xs → P a) → All P xs
  All-of P [] h = tt
  All-of P (x ∷ xs) h = (h x (Memᴰ.head refl), All-of P xs (λ a m. h a (Memᴰ.tail m)))

  pub Memᴰ-filter :
      (p : A → Bool) (xs : List A) (a : A) → Memᴰ a (filter p xs) ↔ (Memᴰ a xs × (p a ≡ true))
  Memᴰ-filter p xs a = (forward xs, λ h. back xs h.0 h.1)
    where
      forward : (ys : List A) → Memᴰ a (filter p ys) → Memᴰ a ys × (p a ≡ true)
      forward [] m = absurd (Memᴰ.not-nil m)
      forward (y ∷ ys) m =
          let ih = forward ys in
          elim (Bool-cases (p y)) [
            | inl e ↦ elim (Memᴰ.cases_cons (rw e at m)) [
              | inl same ↦ (Memᴰ.head same, ap p same ∙ e)
              | inr later ↦ (Memᴰ.tail (ih later).0, (ih later).1)
            ]
            | inr e ↦ (Memᴰ.tail (ih (rw e at m)).0, (ih (rw e at m)).1)
          ]

      back : (ys : List A) → Memᴰ a ys → p a ≡ true → Memᴰ a (filter p ys)
      back [] m h = absurd (Memᴰ.not-nil m)
      back (y ∷ ys) m h =
          let ih = back ys in
          elim (Memᴰ.cases_cons m) [
            | inl same ↦ rw (ap p (sym same) ∙ h) (Memᴰ.head same)
            | inr later ↦ elim (Bool-cases (p y)) [
              | inl e ↦ rw e (Memᴰ.tail (ih later h))
              | inr e ↦ rw e (ih later h)
            ]
          ]

-- A member of an image is the image of a member.
pub Memᴰ-of_map {ℓ κ} :
    {A : Type ℓ} {B : Type κ} (f : A → B) (xs : List A) (b : B)
    → Memᴰ b (map f xs)
    → (a : A) × Memᴰ a xs × (b ≡ f a)
Memᴰ-of_map f [] b m = absurd (Memᴰ.not-nil m)
Memᴰ-of_map f (x ∷ xs) b m =
    let ih = Memᴰ-of_map f xs b in
    elim (Memᴰ.cases_cons m) [
      | inl e ↦ (x, Memᴰ.head refl, e)
      | inr later ↦ let (a, k, e) = ih later in (a, Memᴰ.tail k, e)
    ]

module _ {ℓ} {A : Type ℓ} (p : A → Bool) where
  pub any-Memᴰ : (xs : List A) → any p xs ≡ true → (a : A) × Memᴰ a xs × (p a ≡ true)
  any-Memᴰ [] h = absurd (ground (arith, h))
  any-Memᴰ (x ∷ xs) h =
      let ih = any-Memᴰ xs in
      elim (Bool-cases (p x)) [
        | inl e ↦ (x, Memᴰ.head refl, e)
        | inr e ↦ let (a, k, at) = ih (rw e at h) in (a, Memᴰ.tail k, at)
      ]

  pub Memᴰ-any : (xs : List A) (a : A) → Memᴰ a xs → p a ≡ true → any p xs ≡ true
  Memᴰ-any [] a m h = absurd (Memᴰ.not-nil m)
  Memᴰ-any (x ∷ xs) a m h =
      let ih = Memᴰ-any xs a in
      elim (Memᴰ.cases_cons m) [
        | inl e ↦ rw (ap p (sym e) ∙ h) refl
        | inr later ↦ elim (Bool-cases (p x)) [ inl e ↦ rw e refl | inr e ↦ rw e (ih later h) ]
      ]

pub Memᴰ-concat_map {ℓ κ} :
    {A : Type ℓ} {B : Type κ} (f : A → List B) (xs : List A) (b : B)
    → Memᴰ b (concat_map f xs) ↔ ((a : A) × Memᴰ a xs × Memᴰ b (f a))
Memᴰ-concat_map f [] b = (λ m. absurd (Memᴰ.not-nil m), λ h. absurd (Memᴰ.not-nil h.1))
Memᴰ-concat_map f (x ∷ xs) b =
    let (to, from) = Memᴰ-concat_map f xs b in
    (
      λ m. elim (Memᴰ.append_cases (f x) m) [
        | inl here ↦ (x, Memᴰ.head refl, here)
        | inr later ↦ let (a, k, at) = to later in (a, Memᴰ.tail k, at)
      ],
      λ h.
          let (a, m, at) = h in
          elim (Memᴰ.cases_cons m) [
            | inl e ↦ Memᴰ.append_left (concat_map f xs) (subst (λ y. Memᴰ b (f y)) e at)
            | inr later ↦ Memᴰ.append_right (f x) (from (a, later, at))
          ],
    )
