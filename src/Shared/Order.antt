-- ===== src/Shared/Order.antt =====
-- The order of texts is a strict one, as is any order that compares numbers first.
use Prim.Native.Char.{Char, code}
use Prim.Native.Nat.{ℕ, Ordering, compare as compare_numbers}
use Prim.Native.String
use Prim.Native.String.compare
use Prim.Native.String.{String, [], ◌∷◌, then}
use mathlib.Core.Path.{◌≡◌, refl, sym, ap, ◌∙◌}
use mathlib.Core.Logic.{◌≢◌}
use mathlib.Core.Bool.{Bool, true, false, not, ◌&&◌, ◌||◌}
use native.Mathlib.Omega.{arith}
use text.Mathlib.Text.{is_lt}
use agentic_dev_harness.Shared.Tests.{ltb, eqb, if◌then◌else◌}
use agentic_dev_harness.Shared.Keys.{str_lt}
use agentic_dev_harness.Shared.Sorting.{IsStrict}

true≢false : true ≢ false
true≢false h = ground (arith, h)

str_lt-cons :
    (c d : Char) (s t : String)
    → str_lt (c ∷ s) (d ∷ t) ≡ (ltb (code c) (code d) || (eqb (code c) (code d) && str_lt s t))
str_lt-cons c d s t = rw (compare.cons-cons c d s t) (cases (compare_numbers (code c) (code d)))
  where
    cases :
        (o : Ordering)
        → is_lt ((then) o (String.compare s t)) ≡ (
            elim o [ Ordering.lt ↦ true | _ ↦ false ]
            || (elim o [ Ordering.eq ↦ true | _ ↦ false ] && str_lt s t))
    cases Ordering.lt = refl
    cases Ordering.eq = refl
    cases Ordering.gt = refl

str_lt_asym : (s t : String) → str_lt s t ≡ true → str_lt t s ≡ false
str_lt_asym [] [] h = ap is_lt compare.nil-nil
str_lt_asym [] (d ∷ t) h = ap is_lt (compare.cons-nil d t)
str_lt_asym (c ∷ s) [] h = absurd (true≢false (sym h ∙ ap is_lt (compare.cons-nil c s)))
str_lt_asym (c ∷ s) (d ∷ t) h =
    ground (arith, h, str_lt-cons c d s t, str_lt-cons d c t s, str_lt_asym s t)

str_lt_chain : (s t u : String) → str_lt t s ≡ false → str_lt u t ≡ false → str_lt u s ≡ false
str_lt_chain [] t [] h k = ap is_lt compare.nil-nil
str_lt_chain [] t (e ∷ u) h k = ap is_lt (compare.cons-nil e u)
str_lt_chain (c ∷ s) [] u h k = absurd (true≢false (sym (ap is_lt (compare.nil-cons c s)) ∙ h))
str_lt_chain (c ∷ s) (d ∷ t) [] h k =
    absurd (true≢false (sym (ap is_lt (compare.nil-cons d t)) ∙ k))
str_lt_chain (c ∷ s) (d ∷ t) (e ∷ u) h k =
    ground (
      arith,
      h,
      k,
      str_lt-cons d c t s,
      str_lt-cons e d u t,
      str_lt-cons e c u s,
      str_lt_chain s t u,
    )

pub str_lt-IsStrict : IsStrict str_lt
str_lt-IsStrict = record { asym = str_lt_asym; chain = str_lt_chain }

-- Larger numbers first, and equal ones by a further order.
abbrev pub by_number {ℓ} : {A : Type ℓ} → (A → ℕ) → (A → A → Bool) → A → A → Bool
by_number key later a b = if not (eqb (key a) (key b)) then ltb (key b) (key a) else later a b

chain_numbers :
    (x y z : ℕ) (ba cb ca : Bool)
    → (ba ≡ false → cb ≡ false → ca ≡ false)
    → (if not (eqb y x) then ltb x y else ba) ≡ false
    → (if not (eqb z y) then ltb y z else cb) ≡ false
    → (if not (eqb z x) then ltb x z else ca) ≡ false
chain_numbers x y z ba cb ca trans h k = ground arith

asym_numbers :
    (x y : ℕ) (ab ba : Bool)
    → (ab ≡ true → ba ≡ false)
    → (if not (eqb x y) then ltb y x else ab) ≡ true
    → (if not (eqb y x) then ltb x y else ba) ≡ false
asym_numbers x y ab ba asym h = ground arith

pub by_number-IsStrict {ℓ} :
    {A : Type ℓ} (key : A → ℕ) (later : A → A → Bool)
    → IsStrict later
    → IsStrict (by_number key later)
by_number-IsStrict key later strict = record {
  asym = λ a b. asym_numbers (key a) (key b) (later a b) (later b a) (strict.asym a b);
  chain = λ a b c.
      chain_numbers (key a) (key b) (key c) (later b a) (later c b) (later c a)
        (strict.chain a b c);
}
