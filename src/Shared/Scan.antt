-- ===== src/Shared/Scan.antt =====
-- Scanning texts: `strings.TrimSpace`, `strings.CutPrefix` and `strings.Cut` at a character.
use Prim.Native.Nat.{ℕ}
use Prim.Native.Char.{Char, code}
use Prim.Native.String.{String, [], ◌∷◌, ◌++◌}
use mathlib.Core.Bool.{Bool, true, false, ◌&&◌, ◌||◌}
use mathlib.Core.Option.{Option, none, some}
use mathlib.Core.List
use mathlib.Core.List.{List}
use mathlib.Core.Path.{◌≡◌, refl, sym}
use native.Mathlib.Omega.{arith}
use text.Mathlib.Text.{◌==◌, starts_with}
use text.Mathlib.TextLemmas.{nil-append, cons-append, append_assoc}
use text.Mathlib.TextPositions.{starts_with-append}
use agentic_dev_harness.Shared.Tests.{leb, eqb, if◌then◌else◌}
use agentic_dev_harness.Shared.Strings.{concat}

-- `unicode.IsSpace`
unfoldable pub is_space : ℕ → Bool
is_space c =
    (leb 9 c && leb c 13)
    || eqb c 32
    || eqb c 0x85
    || eqb c 0xA0
    || eqb c 0x1680
    || (leb 0x2000 c && leb c 0x200a)
    || eqb c 0x2028
    || eqb c 0x2029
    || eqb c 0x202f
    || eqb c 0x205f
    || eqb c 0x3000

unfoldable pub trim_left : String → String
unfolding is_space
trim_left [] = []
trim_left (c ∷ s) = let rest = trim_left s in if is_space (code c) then rest else c ∷ s

unfoldable pub trim_right : String → String
unfolding is_space
trim_right [] = []
trim_right (c ∷ s) =
    let rest = trim_right s in if rest == "" && is_space (code c) then [] else c ∷ rest

-- `strings.TrimSpace`
unfoldable pub trim_space : String → String
unfolding trim_left trim_right
trim_space s = trim_right (trim_left s)

-- `strings.CutPrefix`: what follows the prefix, if the text begins with it.
unfoldable pub cut_prefix : String → String → Option String
cut_prefix [] s = some s
cut_prefix (p ∷ ps) [] = none
cut_prefix (p ∷ ps) (c ∷ s) =
    let rest = cut_prefix ps s in if eqb (code p) (code c) then rest else none

-- The text before the first `c`, and the text behind it if there is a `c`.
pub record Cut : Type 0 where
  pub first : String
  pub rest : Option String

abbrev extend : Char → Cut → Cut
extend c r = record { first = c ∷ r.first; rest = r.rest }

-- `strings.Cut(s, c)` for a separator of one character
unfoldable pub cut_at : ℕ → String → Cut
cut_at sep [] = record { first = []; rest = none }
cut_at sep (c ∷ s) =
    let later = cut_at sep s in
    if eqb (code c) sep then record { first = []; rest = some s } else extend c later

-- `strings.TrimRight(s, c)` for a cutset of one character
unfoldable pub trim_right_of : ℕ → String → String
trim_right_of sep [] = []
trim_right_of sep (c ∷ s) =
    let rest = trim_right_of sep s in if rest == "" && eqb (code c) sep then [] else c ∷ rest

-- `strings.Contains`: one of the ends of the text, the empty one included, begins with `t`.
unfoldable pub contains : String → String → Bool
contains [] t = starts_with [] t
contains (c ∷ s) t = let rest = contains s t in starts_with (c ∷ s) t || rest

contains_here : (s t : String) → starts_with s t ≡ true → contains s t ≡ true
unfolding contains
contains_here [] t h = h
contains_here (c ∷ s) t h = simp (h)

contains_later : (c : Char) (s t : String) → contains s t ≡ true → contains (c ∷ s) t ≡ true
unfolding contains
contains_later c s t h = rw h (or-true (starts_with (c ∷ s) t))
  where
    or-true : (b : Bool) → (b || true) ≡ true
    or-true true = refl
    or-true false = refl

-- A text contains what stands in the middle of it.
pub contains-middle : (before t after : String) → contains (before ++ (t ++ after)) t ≡ true
contains-middle [] t after =
    rw (nil-append (t ++ after)) (contains_here (t ++ after) t (starts_with-append t after))
contains-middle (c ∷ before) t after =
    rw (cons-append c before (t ++ after))
      (contains_later c (before ++ (t ++ after)) t (contains-middle before t after))

pub concat-append : (xs ys : List String) → concat (List.◌++◌ xs ys) ≡ concat xs ++ concat ys
concat-append List.[] ys = sym (nil-append (concat ys))
concat-append (List.◌∷◌ x xs) ys =
    rw (concat-append xs ys) (sym (append_assoc x (concat xs) (concat ys)))

-- A text that is put together from parts contains each of them.
pub contains-concat :
    (before : List String) (t : String) (after : List String)
    → contains (concat (List.◌++◌ before (List.◌∷◌ t after))) t ≡ true
contains-concat before t after =
    rw (concat-append before (List.◌∷◌ t after)) (contains-middle (concat before) t (concat after))

-- The two texts differ at a place that both have.
unfoldable pub clash : String → String → Bool
clash [] l = false
clash (p ∷ ps) [] = false
clash (p ∷ ps) (c ∷ l) = let rest = clash ps l in if eqb (code p) (code c) then rest else true

pub cut_prefix-append : (p t : String) → cut_prefix p (p ++ t) ≡ some t
unfolding cut_prefix
cut_prefix-append [] t = rw (nil-append t) refl
cut_prefix-append (c ∷ p) t = rw (cons-append c p t) (ground (arith, cut_prefix-append p t))

-- What follows a text that clashes with the prefix does not matter.
pub cut_prefix-clash : (p l t : String) → clash p l ≡ true → cut_prefix p (l ++ t) ≡ none
unfolding cut_prefix clash
cut_prefix-clash [] l t h = cc
cut_prefix-clash (c ∷ p) [] t h = cc
cut_prefix-clash (c ∷ p) (x ∷ l) t h =
    rw (cons-append x l t) (ground (arith, h, cut_prefix-clash p l t))

-- `strings.Split(s, "\n")`
abbrev onto : Char → List String → List String
onto c List.[] = List.◌∷◌ (c ∷ []) List.[]
onto c (List.◌∷◌ line rest) = List.◌∷◌ (c ∷ line) rest

unfoldable pub lines : String → List String
lines [] = List.◌∷◌ [] List.[]
lines (c ∷ s) = let rest = lines s in if eqb (code c) 10 then List.◌∷◌ [] rest else onto c rest
