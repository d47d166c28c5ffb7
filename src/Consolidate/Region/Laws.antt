-- ===== src/Consolidate/Region/Laws.antt =====
-- An edit of the protected region: what it leaves alone, and that it can be read back.
use Prim.Native.String
use Prim.Native.String.{len}
use text.Mathlib.TextLemmas.{nil-append, append-nil}
use agentic_dev_harness.Shared.{
  ◌≡◌, refl, sym, ap, ◌⊎◌, inl, inr, ◌<◌, Option, none, some, String, ◌==◌, cut, Option-cases,
  Bool-cases, eq_iff, ltb, ltb→lt, if◌then◌else◌, ◌≤◌, ◌↔◌, true, arith,
}
use agentic_dev_harness.Shared.Cuts.{cut-eq}
use agentic_dev_harness.Consolidate.Region.{
  start_mark, end_mark, block, region, surroundings, after_end, appended, apply_learned, ends_line,
}

infixr 65 ◌^^◌
abbrev pub ◌^^◌ : String → String → String
s ^^ t = String.◌++◌ s t

pair_inv :
    (a b c d : String)
    → ◌≡◌ {A = Option (String × String)} (some (a, b)) (some (c, d))
    → (a ≡ c) × (b ≡ d)
pair_inv a b c d h = (cc, cc)

after_end_inv :
    (b : String) (o : Option (String × String)) (before after : String)
    → after_end b o ≡ some (before, after)
    → (upto : String) × (o ≡ some (upto, after)) × (b ≡ before) × (len b < len upto)
after_end_inv b none before after h = cc
after_end_inv b (some (upto, a)) before after h = elim (Bool-cases (ltb (len b) (len upto))) [
  | inl e ↦
      let (same, rest) = pair_inv b a before after (rw e at h) in
      (upto, (λ i. some (upto, rest i)), same, ltb→lt (len b) (len upto) e)
  | inr e ↦ let bad = rw e at h in absurd (cc)
]

surroundings_inv :
    (o : Option (String × String)) (artifact end before after : String)
    → surroundings o artifact end ≡ some (before, after)
    → (rest upto : String) × (o ≡ some (before, rest))
      × (cut end artifact ≡ some (upto, after))
      × (len before < len upto)
surroundings_inv none artifact end before after h = cc
surroundings_inv (some (b, rest)) artifact end before after h =
    let (upto, found, same, shorter) = after_end_inv b (cut end artifact) before after h in
    (rest, upto, (λ i. some (same i, rest)), found, rw (sym same) shorter)

-- The two places where a region was found.
pub region_inv :
    (artifact marker before after : String)
    → region artifact marker ≡ some (before, after)
    → (rest upto : String) × (cut (start_mark marker) artifact ≡ some (before, rest))
      × (cut (end_mark marker) artifact ≡ some (upto, after))
      × (len before < len upto)
unfolding region
region_inv artifact marker before after h =
    surroundings_inv (cut (start_mark marker) artifact) artifact (end_mark marker) before after h

-- What is put behind an artifact without a region.
abbrev pub separator : String → String
separator artifact = if artifact == "" then "" else if ends_line artifact then "\n" else "\n\n"

pub appended-eq :
    (artifact learned marker : String)
    → appended artifact learned marker
      ≡ artifact ^^ (separator artifact ^^ (block learned marker ^^ "\n"))
appended-eq artifact learned marker = elim (Bool-cases (artifact == "")) [
  | inl e ↦ rw e (
      rw (nil-append (block learned marker ^^ "\n"))
        (rw ((eq_iff artifact "").0 e) (sym (nil-append (block learned marker ^^ "\n")))))
  | inr e ↦ rw e refl
]

-- An artifact without a region: it lacks one of the marks, or its first end mark does not come behind
-- its first start mark.
abbrev pub Lacks : String → String → Type 0
Lacks artifact marker =
    (cut (start_mark marker) artifact ≡ none)
    ⊎ (cut (end_mark marker) artifact ≡ none)
    ⊎ ((before rest upto after : String) × (cut (start_mark marker) artifact ≡ some (before, rest))
        × (cut (end_mark marker) artifact ≡ some (upto, after))
        × (len upto ≤ len before))

pub region-Lacks :
    (artifact marker : String) → (region artifact marker ≡ none) ↔ Lacks artifact marker
unfolding region
region-Lacks artifact marker = by_start (cut (start_mark marker) artifact)
  where
    split :
        (at_start at_end : Option (String × String))
        → (elim at_start [ none ↦ none | some (before, _) ↦ after_end before at_end ] ≡ none) ↔ (
            (at_start ≡ none)
            ⊎ (at_end ≡ none)
            ⊎ ((before rest upto after : String) × (at_start ≡ some (before, rest))
                × (at_end ≡ some (upto, after))
                × (len upto ≤ len before)))
    split none at_end = (λ h. inl refl, λ h. refl)
    split (some (before, rest)) none = (λ h. inr (inl refl), λ h. refl)
    split (some (before, rest)) (some (upto, after)) =
        elim (Bool-cases (ltb (len before) (len upto))) [
          | inl e ↦ rw e (λ h. cc, λ h. absurd (overlap e h))
          | inr e ↦
              rw e (
                λ h. inr (inr (before, rest, upto, after, refl, refl, ground (arith, e))),
                λ h. refl,
              )
        ]
      where
        overlap :
            ltb (len before) (len upto) ≡ true
            → (◌≡◌ {A = Option (String × String)} (some (before, rest)) none)
              ⊎ (◌≡◌ {A = Option (String × String)} (some (upto, after)) none)
              ⊎ ((b r u a : String) × (◌≡◌ {A = Option (String × String)}
                    (some (before, rest))
                    (some (b, r)))
                  × (◌≡◌ {A = Option (String × String)} (some (upto, after)) (some (u, a)))
                  × (len u ≤ len b))
            → ⊥
        overlap e (inl h) = cc
        overlap e (inr (inl h)) = cc
        overlap e (inr (inr (b, r, u, a, h, h', le))) =
            let p = (pair_inv before rest b r h).0 in
            let q = (pair_inv upto after u a h').0 in
            let le' : len upto ≤ len before = rw (p, q) le in ground (arith, e, le')

    by_start :
        (at_start : Option (String × String))
        → (surroundings at_start artifact (end_mark marker) ≡ none) ↔ (
            (at_start ≡ none)
            ⊎ (cut (end_mark marker) artifact ≡ none)
            ⊎ ((before rest upto after : String) × (at_start ≡ some (before, rest))
                × (cut (end_mark marker) artifact ≡ some (upto, after))
                × (len upto ≤ len before)))
    by_start none = (λ h. inl refl, λ h. refl)
    by_start (some (before, rest)) = split (some (before, rest)) (cut (end_mark marker) artifact)

-- If the first end mark stands behind the first start mark, an edit replaces what stands from the
-- one through the other by the block of the text, and keeps all other text. If it does not, or a mark
-- is missing, the block is put behind the whole artifact, separated by the line ends that `separator`
-- adds, and with a line end behind it.
pub apply_learned_keeps :
    (artifact learned marker : String)
    → ((before rest upto after : String) × (cut (start_mark marker) artifact ≡ some (before, rest))
        × (cut (end_mark marker) artifact ≡ some (upto, after))
        × (artifact ≡ before ^^ (start_mark marker ^^ rest))
        × (artifact ≡ upto ^^ (end_mark marker ^^ after))
        × (len before < len upto)
        × (apply_learned artifact learned marker ≡ before ^^ (block learned marker ^^ after)))
      ⊎ (Lacks artifact marker
          × (apply_learned artifact learned marker
              ≡ artifact ^^ (separator artifact ^^ (block learned marker ^^ "\n"))))
unfolding apply_learned
apply_learned_keeps artifact learned marker = elim (Option-cases (region artifact marker)) [
  | inl none_ ↦
      inr ((region-Lacks artifact marker).0 none_, rw none_ (appended-eq artifact learned marker))
  | inr ((before, after), found) ↦
      let (rest, upto, at_start, at_end, shorter) = region_inv artifact marker before after found in
      inl (
        before,
        rest,
        upto,
        after,
        at_start,
        at_end,
        cut-eq (start_mark marker) artifact before rest at_start,
        cut-eq (end_mark marker) artifact upto after at_end,
        shorter,
        rw found (ap (λ t. before ^^ (block learned marker ^^ t)) (append-nil after)),
      )
]
