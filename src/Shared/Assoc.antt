-- ===== src/Shared/Assoc.antt =====
-- Association lists with text keys, for directories of files and for Go maps.
use Prim.Native.String.{String}
use mathlib.Core.Path.{◌≡◌, refl, sym, ap, subst, ◌∙◌}
use mathlib.Core.Bool.{false}
use mathlib.Core.Logic.{inl, inr}
use mathlib.Core.Option.{Option, none, some}
use mathlib.Core.List.{List, [], ◌∷◌, Memᴰ}
use mathlib.Core.List.Memᴰ
use native.Mathlib.Omega.{arith}
use text.Mathlib.Text.{◌==◌}
use text.Mathlib.TextEquality.{eq_iff}
use agentic_dev_harness.Shared.Tests.{if◌then◌else◌, Bool-cases}
use agentic_dev_harness.Shared.Lists.{All}

pub none_not_some {ℓ} : {A : Type ℓ} {a : A} → none ≡ some a → ⊥
none_not_some h = cc

pub some_inj {ℓ} : {A : Type ℓ} {a b : A} → some a ≡ some b → a ≡ b
some_inj h = cc

module _ {ℓ} {A : Type ℓ} where
  unfoldable pub lookup : String → List (String × A) → Option A
  lookup key [] = none
  lookup key (entry ∷ rest) = if entry.0 == key then some entry.1 else lookup key rest

  -- An entry of the key is replaced where it stands; a new key goes to the end.
  unfoldable pub insert : String → A → List (String × A) → List (String × A)
  insert key a [] = (key, a) ∷ []
  insert key a (entry ∷ rest) =
      let later = insert key a rest in if entry.0 == key then (key, a) ∷ rest else entry ∷ later

  pub lookup-insert :
      (written asked : String) (a : A) (dir : List (String × A))
      → lookup asked (insert written a dir)
        ≡ (if written == asked then some a else lookup asked dir)
  unfolding lookup insert
  lookup-insert written asked a [] = refl
  lookup-insert written asked a ((name, b) ∷ dir) = ground (
    arith,
    eq_iff name asked,
    eq_iff name written,
    eq_iff written asked,
    lookup-insert written asked a dir,
  )

  -- Each key stands once.
  abbrev pub IsKeyed : List (String × A) → Type ℓ
  IsKeyed [] = Unit
  IsKeyed (entry ∷ rest) = (lookup entry.0 rest ≡ none) × IsKeyed rest

  pub insert-IsKeyed :
      (key : String) (a : A) (dir : List (String × A)) → IsKeyed dir → IsKeyed (insert key a dir)
  unfolding insert lookup
  insert-IsKeyed key a [] h = (refl, tt)
  insert-IsKeyed key a (entry ∷ rest) h = elim (Bool-cases (entry.0 == key)) [
    | inl e ↦ rw e (subst (λ k. lookup k rest ≡ none) ((eq_iff entry.0 key).0 e) h.0, h.1)
    | inr e ↦
        let other : (key == entry.0) ≡ false =
          ground (arith, e, eq_iff entry.0 key, eq_iff key entry.0) in
        rw e (lookup-insert key entry.0 a rest ∙ rw other h.0, insert-IsKeyed key a rest h.1)
  ]

  pub Memᴰ-of_lookup :
      (key : String) (dir : List (String × A)) (a : A) → lookup key dir ≡ some a → Memᴰ (key, a) dir
  unfolding lookup
  Memᴰ-of_lookup key [] a h = absurd (none_not_some h)
  Memᴰ-of_lookup key ((k, b) ∷ rest) a h =
      let ih = Memᴰ-of_lookup key rest a in
      elim (Bool-cases (k == key)) [
        | inl e ↦
            let at : b ≡ a = some_inj (rw e at h) in
            Memᴰ.head (λ i. (sym ((eq_iff k key).0 e) i, sym at i))
        | inr e ↦ Memᴰ.tail (ih (rw e at h))
      ]

  -- Where each key stands once, an entry is what is found under its key.
  pub lookup-of_Memᴰ :
      (key : String) (dir : List (String × A)) (a : A)
      → IsKeyed dir
      → Memᴰ (key, a) dir
      → lookup key dir ≡ some a
  unfolding lookup
  lookup-of_Memᴰ key [] a d m = absurd (Memᴰ.not-nil m)
  lookup-of_Memᴰ key ((k, b) ∷ rest) a d m =
      let ih = lookup-of_Memᴰ key rest a d.1 in
      elim (Memᴰ.cases_cons m) [
        | inl e ↦
            let same = (eq_iff k key).1 (sym (ap (λ (p : String × A). p.0) e)) in
            rw same (ap some (sym (ap (λ (p : String × A). p.1) e)))
        | inr later ↦ elim (Bool-cases (k == key)) [
          | inl e ↦
              let found =
                subst (λ j. lookup j rest ≡ some a) (sym ((eq_iff k key).0 e)) (ih later) in
              absurd (none_not_some (sym d.0 ∙ found))
          | inr e ↦ rw e (ih later)
        ]
      ]

  pub All-insert {κ} :
      (P : String × A → Type κ) (key : String) (a : A) (dir : List (String × A))
      → P (key, a)
      → All P dir
      → All P (insert key a dir)
  unfolding insert
  All-insert P key a [] p h = (p, tt)
  All-insert P key a (entry ∷ rest) p h = elim (Bool-cases (entry.0 == key)) [
    | inl e ↦ rw e (p, h.1)
    | inr e ↦ rw e (h.0, All-insert P key a rest p h.1)
  ]
