-- ===== src/Oracle/Orders.antt =====
-- Two orders of the same runs: cell by cell, and all rows before all columns.
use mathlib.Core.List.{Permᴰ, append_assoc}
use mathlib.Core.List.Permᴰ
use mathlib.Core.Path.{subst}
use agentic_dev_harness.Shared.{◌≡◌, refl, sym, List, [], ◌∷◌, ◌++◌, concat_map, All}

module _ {κ} {B : Type κ} where
  pub same-Permᴰ : {xs ys : List B} → xs ≡ ys → Permᴰ xs ys
  same-Permᴰ {xs} e = subst (λ l. Permᴰ xs l) e (Permᴰ.refl xs)

  -- Two middle parts exchange their places.
  middle-Permᴰ : (a b c d : List B) → Permᴰ ((a ++ b) ++ (c ++ d)) ((a ++ c) ++ (b ++ d))
  middle-Permᴰ a b c d = Permᴰ.trans (same-Permᴰ (append_assoc a b (c ++ d))) (
      Permᴰ.trans
        (Permᴰ.append_left a (
          Permᴰ.trans (same-Permᴰ (sym (append_assoc b c d))) (
            Permᴰ.trans (Permᴰ.append_right d (Permᴰ.append_comm b c))
              (same-Permᴰ (append_assoc c b d)))))
        (same-Permᴰ (sym (append_assoc a c (b ++ d)))))

  pub append-Permᴰ : {a a' b b' : List B} → Permᴰ a a' → Permᴰ b b' → Permᴰ (a ++ b) (a' ++ b')
  append-Permᴰ {a} {a'} {b} p q = Permᴰ.trans (Permᴰ.append_right b p) (Permᴰ.append_left a' q)

module _ {ℓ κ} {A : Type ℓ} {B : Type κ} where
  pub concat_map-append :
      (f g : A → List B) (xs : List A)
      → Permᴰ (concat_map (λ x. f x ++ g x) xs) (concat_map f xs ++ concat_map g xs)
  concat_map-append f g [] = Permᴰ.nil
  concat_map-append f g (x ∷ xs) =
      Permᴰ.trans (Permᴰ.append_left (f x ++ g x) (concat_map-append f g xs))
        (middle-Permᴰ (f x) (g x) (concat_map f xs) (concat_map g xs))

  pub concat_map-Permᴰ :
      (f g : A → List B) (xs : List A)
      → ((x : A) → Permᴰ (f x) (g x))
      → Permᴰ (concat_map f xs) (concat_map g xs)
  concat_map-Permᴰ f g [] h = Permᴰ.nil
  concat_map-Permᴰ f g (x ∷ xs) h = append-Permᴰ (h x) (concat_map-Permᴰ f g xs h)

  pub concat_map-cong :
      (f g : A → List B) (xs : List A) → All (λ x. f x ≡ g x) xs → concat_map f xs ≡ concat_map g xs
  concat_map-cong f g [] h = refl
  concat_map-cong f g (x ∷ xs) h = λ i. h.0 i ++ concat_map-cong f g xs h.1 i

  concat_map-nil : (xs : List A) → ◌≡◌ {A = List B} (concat_map (λ x. []) xs) []
  concat_map-nil [] = refl
  concat_map-nil (x ∷ xs) = concat_map-nil xs

-- A double loop may be turned inside out.
pub concat_map-swap {ℓ κ μ} :
    {A : Type ℓ} {B : Type κ} {C : Type μ} (f : A → B → List C) (xs : List A) (ys : List B)
    → Permᴰ
        (concat_map (λ x. concat_map (f x) ys) xs)
        (concat_map (λ y. concat_map (λ x. f x y) xs) ys)
concat_map-swap f [] ys = same-Permᴰ (sym (concat_map-nil ys))
concat_map-swap f (x ∷ xs) ys =
    Permᴰ.trans (Permᴰ.append_left (concat_map (f x) ys) (concat_map-swap f xs ys))
      (Permᴰ.symm (concat_map-append (f x) (λ y. concat_map (λ z. f z y) xs) ys))
