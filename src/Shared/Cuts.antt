-- ===== src/Shared/Cuts.antt =====
-- `strings.Cut` at a text, which also gives what `strings.Index` finds: the first place where the
-- separator stands.
use Prim.Native.Nat.{ℕ}
use Prim.Native.Char.{Char, code}
use Prim.Native.String.{String, [], ◌∷◌, ◌++◌}
use mathlib.Core.Bool.{Bool, true, false, not, ◌&&◌}
use mathlib.Core.Option.{Option, none, some}
use mathlib.Core.Path.{◌≡◌, refl, sym, ap, ◌∙◌}
use mathlib.Core.Logic.{◌⊎◌, inl, inr}
use native.Mathlib.Omega.{arith}
use text.Mathlib.TextEquality.{Char-path}
use text.Mathlib.TextLemmas.{nil-append, cons-append, append_assoc}
use agentic_dev_harness.Shared.Tests.{eqb, Option-cases}
use agentic_dev_harness.Shared.Assoc.{none_not_some, some_inj}
use agentic_dev_harness.Shared.Scan.{cut_prefix, cut_prefix-append}

abbrev pub behind : Char → Option (String × String) → Option (String × String)
behind c none = none
behind c (some (b, a)) = some (c ∷ b, a)

abbrev or_later : Option String → Option (String × String) → Option (String × String)
or_later none later = later
or_later (some rest) later = some ([], rest)

unfoldable pub cut : String → String → Option (String × String)
unfolding cut_prefix
cut sep [] = or_later (cut_prefix sep []) none
cut sep (c ∷ s) = let later = behind c (cut sep s) in or_later (cut_prefix sep (c ∷ s)) later

prefix_cons :
    (c d : Char) (p s r : String)
    → cut_prefix (c ∷ p) (d ∷ s) ≡ some r
    → (c ≡ d) × (cut_prefix p s ≡ some r)
unfolding cut_prefix
prefix_cons c d p s r h = (Char-path c d (ground (arith, h)), ground (arith, h))

cut_prefix-eq : (p s r : String) → cut_prefix p s ≡ some r → s ≡ p ++ r
unfolding cut_prefix
cut_prefix-eq [] s r h = some_inj h ∙ sym (nil-append r)
cut_prefix-eq (c ∷ p) [] r h = absurd (none_not_some h)
cut_prefix-eq (c ∷ p) (d ∷ s) r h =
    let (same, later) = prefix_cons c d p s r h in
    rw (cons-append c p r) (λ i. sym same i ∷ cut_prefix-eq p s r later i)

-- The text is as long as the prefix, or longer.
fits : String → String → Bool
fits [] u = true
fits (c ∷ p) [] = false
fits (c ∷ p) (d ∷ u) = fits p u

cut_prefix-none :
    (p u a x : String)
    → fits p u ≡ true
    → cut_prefix p (u ++ a) ≡ none
    → cut_prefix p (u ++ x) ≡ none
unfolding cut_prefix fits
cut_prefix-none [] u a x f h = cc
cut_prefix-none (c ∷ p) [] a x f h = cc
cut_prefix-none (c ∷ p) (d ∷ u) a x f h =
    rw (cons-append d u x) (ground (arith, f, rw (cons-append d u a) at h, cut_prefix-none p u a x))

fits_self : (p : String) → fits p p ≡ true
unfolding fits
fits_self [] = refl
fits_self (c ∷ p) = fits_self p

fits_cons : (c : Char) (u p : String) → fits p u ≡ true → fits p (c ∷ u) ≡ true
unfolding fits
fits_cons c u [] h = refl
fits_cons c [] (d ∷ p) h = cc
fits_cons c (e ∷ u) (d ∷ p) h = fits_cons e u p h

fits_longer : (u v p : String) → fits p v ≡ true → fits p (u ++ v) ≡ true
unfolding fits
fits_longer [] v p h = rw (nil-append v) h
fits_longer (c ∷ u) v p h = rw (cons-append c u v) (fits_cons c (u ++ v) p (fits_longer u v p h))

fits-append : (u p : String) → fits p (u ++ p) ≡ true
fits-append u p = fits_longer u p p (fits_self p)

-- Where a cut was found: at once, or behind the first character.
or_later-cases :
    (o : Option String) (later : Option (String × String)) (q : String × String)
    → or_later o later ≡ some q
    → ((r : String) × (o ≡ some r) × (q ≡ ([], r))) ⊎ ((o ≡ none) × (later ≡ some q))
or_later-cases none later q h = inr (refl, h)
or_later-cases (some r) later q h = inl (r, refl, sym (some_inj h))

behind_inv :
    (c : Char) (o : Option (String × String)) (b a : String)
    → behind c o ≡ some (b, a)
    → (b' : String) × (b ≡ c ∷ b') × (o ≡ some (b', a))
behind_inv c none b a h = absurd (none_not_some h)
behind_inv c (some (b', a')) b a h =
    let e = some_inj h in
    (
      b',
      sym (ap (λ (p : String × String). p.0) e),
      λ i. some (b', ap (λ (p : String × String). p.1) e i),
    )

at_once :
    (sep s r b a : String)
    → cut_prefix sep s ≡ some r
    → ◌≡◌ {A = String × String} (b, a) ([], r)
    → s ≡ b ++ (sep ++ a)
at_once sep s r b a here e =
    cut_prefix-eq sep s r here
    ∙ (λ i. sep ++ sym (ap (λ (p : String × String). p.1) e) i)
    ∙ sym (nil-append (sep ++ a))
    ∙ (λ i. sym (ap (λ (p : String × String). p.0) e) i ++ (sep ++ a))

cut_found : (sep s r : String) → cut_prefix sep s ≡ some r → cut sep s ≡ some ([], r)
unfolding cut
cut_found sep [] r h = rw h refl
cut_found sep (c ∷ s) r h = rw h refl

cut_skip :
    (sep : String) (c : Char) (s : String)
    → cut_prefix sep (c ∷ s) ≡ none
    → cut sep (c ∷ s) ≡ behind c (cut sep s)
unfolding cut
cut_skip sep c s h = rw h refl

pub cut-here : (sep x : String) → cut sep (sep ++ x) ≡ some ([], x)
cut-here sep x = cut_found sep (sep ++ x) x (cut_prefix-append sep x)

-- What a cut yields, put together again.
pub cut-eq : (sep s b a : String) → cut sep s ≡ some (b, a) → s ≡ b ++ (sep ++ a)
unfolding cut
cut-eq sep [] b a h = elim (or_later-cases (cut_prefix sep []) none (b, a) h) [
  | inl (r, here, e) ↦ at_once sep [] r b a here e
  | inr (absent, later) ↦ absurd (none_not_some later)
]
cut-eq sep (c ∷ s) b a h =
    let ih = λ (b' : String). cut-eq sep s b' a in
    elim (or_later-cases (cut_prefix sep (c ∷ s)) (behind c (cut sep s)) (b, a) h) [
      | inl (r, here, e) ↦ at_once sep (c ∷ s) r b a here e
      | inr (absent, later) ↦
          let (b', e, found) = behind_inv c (cut sep s) b a later in
          rw e (rw (cons-append c b' (sep ++ a)) (ap (λ t. c ∷ t) (ih b' found)))
    ]

-- What stands behind the separator does not change where it is found.
pub cut-again :
    (sep s b a x : String) → cut sep s ≡ some (b, a) → cut sep (b ++ (sep ++ x)) ≡ some (b, x)
unfolding cut
cut-again sep [] b a x h = elim (or_later-cases (cut_prefix sep []) none (b, a) h) [
  | inl (r, here, e) ↦
      rw (ap (λ (p : String × String). p.0) e) (rw (nil-append (sep ++ x)) (cut-here sep x))
  | inr (absent, later) ↦ absurd (none_not_some later)
]
cut-again sep (c ∷ s) b a x h =
    let ih = λ (b' : String). cut-again sep s b' a x in
    elim (or_later-cases (cut_prefix sep (c ∷ s)) (behind c (cut sep s)) (b, a) h) [
      | inl (r, here, e) ↦
          rw (ap (λ (p : String × String). p.0) e) (rw (nil-append (sep ++ x)) (cut-here sep x))
      | inr (absent, later) ↦
          let (b', e, found) = behind_inv c (cut sep s) b a later in
          let whole : c ∷ s ≡ (c ∷ (b' ++ sep)) ++ a =
            ap (λ t. c ∷ t) (cut-eq sep s b' a found ∙ sym (append_assoc b' sep a))
            ∙ sym (cons-append c (b' ++ sep) a) in
          let still : cut_prefix sep ((c ∷ (b' ++ sep)) ++ x) ≡ none =
            cut_prefix-none sep (c ∷ (b' ++ sep)) a x
              (fits_cons c (b' ++ sep) sep (fits-append b' sep))
              (sym (ap (cut_prefix sep) whole) ∙ absent) in
          let shape : (c ∷ (b' ++ sep)) ++ x ≡ c ∷ (b' ++ (sep ++ x)) =
            cons-append c (b' ++ sep) x ∙ ap (λ t. c ∷ t) (append_assoc b' sep x) in
          rw e (
            rw (cons-append c b' (sep ++ x)) (
              cut_skip sep c (b' ++ (sep ++ x)) (ap (cut_prefix sep) (sym shape) ∙ still)
              ∙ ap (behind c) (ih b' found)))
    ]

-- A separator without the character `n` that is not found before an `n` is looked for behind it.
abbrev pub is_free : ℕ → String → Bool
is_free n [] = true
is_free n (c ∷ s) = not (eqb (code c) n) && is_free n s

cut_prefix-none_over :
    (n : Char) (p u v : String)
    → is_free (code n) p ≡ true
    → cut_prefix p u ≡ none
    → cut_prefix p (u ++ (n ∷ v)) ≡ none
unfolding cut_prefix
cut_prefix-none_over n [] u v f h = cc
cut_prefix-none_over n (c ∷ p) [] v f h = rw (nil-append (n ∷ v)) (ground (arith, f))
cut_prefix-none_over n (c ∷ p) (d ∷ u) v f h =
    rw (cons-append d u (n ∷ v)) (ground (arith, f, h, cut_prefix-none_over n p u v))

abbrev pub past : String → Option (String × String) → Option (String × String)
past s none = none
past s (some (b, a)) = some (s ++ b, a)

none_later :
    (o : Option String) (later : Option (String × String))
    → or_later o later ≡ none
    → (o ≡ none) × (later ≡ none)
none_later none later h = (refl, h)
none_later (some r) later h = cc

behind-none : (c : Char) (o : Option (String × String)) → behind c o ≡ none → o ≡ none
behind-none c none h = refl
behind-none c (some q) h = cc

behind-past :
    (c : Char) (s : String) (o : Option (String × String)) → behind c (past s o) ≡ past (c ∷ s) o
behind-past c s none = refl
behind-past c s (some (b, a)) = λ i. some (sym (cons-append c s b) i, a)

behind-eq : (c : Char) (o : Option (String × String)) → behind c o ≡ past (c ∷ []) o
behind-eq c none = refl
behind-eq c (some (b, a)) =
    λ i. some (sym (cons-append c [] b ∙ ap (λ t. c ∷ t) (nil-append b)) i, a)

pub cut_over :
    (n : Char) (sep u v : String)
    → is_free (code n) sep ≡ true
    → cut sep u ≡ none
    → cut sep (u ++ (n ∷ v)) ≡ past (u ++ (n ∷ [])) (cut sep v)
unfolding cut
cut_over n sep [] v f h =
    let absent = cut_prefix-none_over n sep [] v f (none_later (cut_prefix sep []) none h).0 in
    rw (nil-append (n ∷ v)) (
      rw (nil-append (n ∷ [])) (
        cut_skip sep n v (ap (cut_prefix sep) (sym (nil-append (n ∷ v))) ∙ absent)
        ∙ behind-eq n (cut sep v)))
cut_over n sep (c ∷ u) v f h =
    let gone = none_later (cut_prefix sep (c ∷ u)) (behind c (cut sep u)) h in
    let ih = cut_over n sep u v f (behind-none c (cut sep u) gone.1) in
    let absent = cut_prefix-none_over n sep (c ∷ u) v f gone.0 in
    rw (cons-append c u (n ∷ v)) (
      rw (cons-append c u (n ∷ [])) (
        cut_skip sep c (u ++ (n ∷ v)) (ap (cut_prefix sep) (sym (cons-append c u (n ∷ v))) ∙ absent)
        ∙ ap (behind c) ih
        ∙ behind-past c (u ++ (n ∷ [])) (cut sep v)))

prefix_longer : (p u v r : String) → cut_prefix p u ≡ some r → cut_prefix p (u ++ v) ≡ some (r ++ v)
unfolding cut_prefix
prefix_longer [] u v r h = ap (λ t. some (t ++ v)) (some_inj h)
prefix_longer (c ∷ p) [] v r h = absurd (none_not_some h)
prefix_longer (c ∷ p) (d ∷ u) v r h =
    rw (cons-append d u v) (ground (arith, h, prefix_longer p u v r))

prefix_none_left : (p u v : String) → cut_prefix p (u ++ v) ≡ none → cut_prefix p u ≡ none
prefix_none_left p u v h = elim (Option-cases (cut_prefix p u)) [
  | inl e ↦ e
  | inr (r, e) ↦ absurd (none_not_some (sym h ∙ prefix_longer p u v r e))
]

none_first : (sep s : String) → cut sep s ≡ none → cut_prefix sep s ≡ none
none_first sep s h = elim (Option-cases (cut_prefix sep s)) [
  | inl e ↦ e
  | inr (r, e) ↦ absurd (none_not_some (sym h ∙ cut_found sep s r e))
]

-- A separator that is not found in a text is not found in what the text begins with.
pub cut-none_left : (sep u v : String) → cut sep (u ++ v) ≡ none → cut sep u ≡ none
unfolding cut
cut-none_left sep [] v h = rw (prefix_none_left sep [] v (none_first sep ([] ++ v) h)) refl
cut-none_left sep (c ∷ u) v h =
    let shape = cons-append c u v in
    let first = prefix_none_left sep (c ∷ u) v (none_first sep ((c ∷ u) ++ v) h) in
    let later =
      none_later (cut_prefix sep (c ∷ (u ++ v))) (behind c (cut sep (u ++ v))) (rw shape at h) in
    rw first (ap (behind c) (cut-none_left sep u v (behind-none c (cut sep (u ++ v)) later.1)))

pub is_free-append : (n : ℕ) (s t : String) → is_free n (s ++ t) ≡ (is_free n s && is_free n t)
is_free-append n [] t = ap (is_free n) (nil-append t)
is_free-append n (c ∷ s) t =
    ap (is_free n) (cons-append c s t) ∙ (ground (arith, is_free-append n s t))
