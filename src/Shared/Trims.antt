-- ===== src/Shared/Trims.antt =====
-- White space at the ends of a text does not change what trimming leaves of it.
use Prim.Native.Char.{Char, code}
use Prim.Native.String.{String, [], ◌∷◌, ◌++◌}
use mathlib.Core.Bool.{Bool, true, ◌&&◌}
use mathlib.Core.Path.{◌≡◌, refl, sym, ap, ◌∙◌}
use mathlib.Core.Logic.{inl, inr}
use native.Mathlib.Omega.{arith}
use text.Mathlib.Text.{◌==◌}
use text.Mathlib.TextEquality.{eq_iff, Char-path}
use text.Mathlib.TextLemmas.{nil-append, cons-append}
use agentic_dev_harness.Shared.Tests.{eqb, Bool-cases}
use agentic_dev_harness.Shared.Scan.{is_space, trim_left, trim_right, trim_space, trim_right_of}

and_inv : (a b : Bool) → (a && b) ≡ true → (a ≡ true) × (b ≡ true)
and_inv a b h = ground (arith, h)

-- A text of white space alone.
pub is_blank : String → Bool
is_blank [] = true
is_blank (c ∷ s) = is_space (code c) && is_blank s

trim_left-blank : (w : String) → is_blank w ≡ true → trim_left w ≡ []
unfolding is_blank trim_left
trim_left-blank [] h = refl
trim_left-blank (c ∷ w) h =
    let (first, rest) = and_inv (is_space (code c)) (is_blank w) h in
    rw first (trim_left-blank w rest)

trim_right-blank : (w : String) → is_blank w ≡ true → trim_right w ≡ []
unfolding is_blank trim_right
trim_right-blank [] h = refl
trim_right-blank (c ∷ w) h =
    let (first, rest) = and_inv (is_space (code c)) (is_blank w) h in
    rw (trim_right-blank w rest) (rw first refl)

trim_right-append : (s w : String) → is_blank w ≡ true → trim_right (s ++ w) ≡ trim_right s
unfolding trim_right
trim_right-append [] w h = rw (nil-append w) (trim_right-blank w h)
trim_right-append (c ∷ s) w h = rw (cons-append c s w) (rw (trim_right-append s w h) refl)

pub trim_space-append : (s w : String) → is_blank w ≡ true → trim_space (s ++ w) ≡ trim_space s
unfolding trim_space trim_left
trim_space-append [] w h =
    ap (λ t. trim_right (trim_left t)) (nil-append w) ∙ ap trim_right (trim_left-blank w h)
trim_space-append (c ∷ s) w h =
    let ih = trim_space-append s w h in
    rw (cons-append c s w) (elim (Bool-cases (is_space (code c))) [
      | inl e ↦ rw e ih
      | inr e ↦ rw e (ap trim_right (sym (cons-append c s w)) ∙ trim_right-append (c ∷ s) w h)
    ])

pub trim_space_cons :
    (c : Char) (s : String) → is_space (code c) ≡ true → trim_space (c ∷ s) ≡ trim_space s
unfolding trim_space trim_left
trim_space_cons c s h = rw h refl

-- What `strings.TrimRight` at one character takes away is a blank end, if the character is blank.
pub trim_right_of-end :
    (c : Char) (s : String)
    → is_space (code c) ≡ true
    → (w : String) × (is_blank w ≡ true) × (s ≡ trim_right_of (code c) s ++ w)
unfolding trim_right_of is_blank
trim_right_of-end c [] h = ([], refl, sym (nil-append []))
trim_right_of-end c (d ∷ s) h =
    let (w, blank, e) = trim_right_of-end c s h in
    elim (Bool-cases (trim_right_of (code c) s == "" && eqb (code d) (code c))) [
      | inl gone ↦
          let (empty, same) =
            and_inv (trim_right_of (code c) s == "") (eqb (code d) (code c)) gone in
          let rest : s ≡ w =
            e ∙ ap (λ t. t ++ w) ((eq_iff (trim_right_of (code c) s) "").0 empty) ∙ nil-append w in
          (
            d ∷ w,
            rw (Char-path d c (ground (arith, same))) (rw h blank),
            rw gone (ap (λ t. d ∷ t) rest ∙ sym (nil-append (d ∷ w))),
          )
      | inr kept ↦
          (w, blank, rw kept (rw (cons-append d (trim_right_of (code c) s) w) (ap (λ t. d ∷ t) e)))
    ]

pub is_space_newline : is_space 10 ≡ true
unfolding is_space
is_space_newline = refl

pub is_blank_newline : is_blank "\n" ≡ true
unfolding is_blank is_space
is_blank_newline = refl
