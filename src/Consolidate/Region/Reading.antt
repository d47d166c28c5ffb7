-- ===== src/Consolidate/Region/Reading.antt =====
-- An edit of the protected region can be read back.
use Prim.Native.Char.{Char}
use Prim.Native.String.{len}
use text.Mathlib.TextLemmas.{nil-append, append-nil, append_assoc, cons-append}
use agentic_dev_harness.Shared.{
  ◌≡◌, refl, sym, ap, ◌∙◌, ◌≢◌, ◌⊎◌, inl, inr, true, none, some, String, ◌==◌, cut, trim_space,
  trim_right_of, Option-cases, Bool-cases, eq_iff, ◌≤◌,
}
use agentic_dev_harness.Shared.Cuts.{
  cut-again, cut-eq, cut-here, cut_over, cut-none_left, is_free, is_free-append, past,
}
use agentic_dev_harness.Shared.Trims.{
  trim_space-append, trim_space_cons, trim_right_of-end, is_space_newline, is_blank_newline,
}
use agentic_dev_harness.Consolidate.Region.{
  start_mark, end_mark, block, region, apply_learned, current_learned, ends_line,
}
use agentic_dev_harness.Consolidate.Region.Laws.{
  ◌^^◌, region_inv, separator, appended-eq, region-Lacks,
}

abbrev nl : Char
nl = "\n"

line_end : (t : String) → "\n" ^^ t ≡ String.◌∷◌ nl t
line_end t = cons-append nl "" t ∙ ap (String.◌∷◌ nl) (nil-append t)

-- What stands behind the start mark of a block.
abbrev tail : String → String → String → String
tail learned marker x =
    String.◌∷◌ nl (trim_right_of 10 learned ^^ String.◌∷◌ nl (end_mark marker ^^ x))

block-eq :
    (learned marker x : String)
    → block learned marker ^^ x ≡ start_mark marker ^^ tail learned marker x
block-eq learned marker x = simp (append_assoc, append-nil, cons-append, line_end)

shape :
    (text : String)
    → ("" ^^ String.◌∷◌ nl "") ^^ ((text ^^ String.◌∷◌ nl "") ^^ "") ≡ String.◌∷◌ nl (text ^^ "\n")
shape text =
    ap (λ t. ("" ^^ String.◌∷◌ nl "") ^^ t) (append-nil (text ^^ String.◌∷◌ nl ""))
    ∙ ap (λ t. t ^^ (text ^^ "\n")) (nil-append "\n")
    ∙ line_end (text ^^ "\n")

is_free_mark :
    (front end marker : String)
    → is_free 10 marker ≡ true
    → is_free 10 front ≡ true
    → is_free 10 end ≡ true
    → is_free 10 (front ^^ (marker ^^ end)) ≡ true
is_free_mark front end marker f g h =
    is_free-append 10 front (marker ^^ end) ∙ rw g (is_free-append 10 marker end ∙ rw f h)

module _ (learned marker : String) (free : is_free 10 marker ≡ true) where
  free_start : is_free 10 (start_mark marker) ≡ true
  free_start = is_free_mark "<!-- " " START -->" marker free refl refl

  free_end : is_free 10 (end_mark marker) ≡ true
  free_end = is_free_mark "<!-- " " END -->" marker free refl refl

  module _ (absent : cut (end_mark marker) learned ≡ none) where
    absent_trimmed : cut (end_mark marker) (trim_right_of 10 learned) ≡ none
    absent_trimmed =
        let (w, blank, e) = trim_right_of-end nl learned is_space_newline in
        cut-none_left (end_mark marker) (trim_right_of 10 learned) w (rw e at absent)

    trim-body : trim_space (String.◌∷◌ nl (trim_right_of 10 learned ^^ "\n")) ≡ trim_space learned
    trim-body =
        let (w, blank, e) = trim_right_of-end nl learned is_space_newline in
        trim_space_cons nl (trim_right_of 10 learned ^^ "\n") is_space_newline
        ∙ trim_space-append (trim_right_of 10 learned) "\n" is_blank_newline
        ∙ sym (trim_space-append (trim_right_of 10 learned) w blank)
        ∙ sym (ap trim_space e)

    cut-tail :
        (x : String)
        → cut (end_mark marker) (tail learned marker x)
          ≡ some (String.◌∷◌ nl (trim_right_of 10 learned ^^ "\n"), x)
    cut-tail x =
        let end_ = end_mark marker in
        let text = trim_right_of 10 learned in
        let line = String.◌∷◌ nl "" in
        ap (cut end_) (sym (nil-append (tail learned marker x)))
        ∙ cut_over nl end_ "" (text ^^ String.◌∷◌ nl (end_ ^^ x)) free_end
            (cut-none_left end_ "" text (ap (cut end_) (nil-append text) ∙ absent_trimmed))
        ∙ ap (past ("" ^^ line)) (
            cut_over nl end_ text (end_ ^^ x) free_end absent_trimmed
            ∙ ap (past (text ^^ line)) (cut-here end_ x))
        ∙ (λ i. some (shape text i, x))

    -- An artifact whose first start mark is that of the block.
    read_back :
        (artifact b x : String)
        → cut (start_mark marker) artifact ≡ some (b, tail learned marker x)
        → current_learned artifact marker ≡ trim_space learned
    unfolding current_learned
    read_back artifact b x found = rw found (rw (cut-tail x) trim-body)

    at_end :
        (before x : String)
        → cut (start_mark marker) before ≡ none
        → cut (start_mark marker) (before ^^ String.◌∷◌ nl (block learned marker ^^ x))
          ≡ some (before ^^ String.◌∷◌ nl "", tail learned marker x)
    at_end before x none_ =
        cut_over nl (start_mark marker) before (block learned marker ^^ x) free_start none_
        ∙ ap (past (before ^^ String.◌∷◌ nl "")) (
            ap (cut (start_mark marker)) (block-eq learned marker x)
            ∙ cut-here (start_mark marker) (tail learned marker x))
        ∙ (λ i. some (append-nil (before ^^ String.◌∷◌ nl "") i, tail learned marker x))

    begun :
        (before : String)
        → cut (start_mark marker) before ≡ none
        → cut (start_mark marker) (before ^^ "\n") ≡ none
    begun before none_ =
        cut_over nl (start_mark marker) before "" free_start none_
        ∙ ap (past (before ^^ String.◌∷◌ nl "")) (
            cut-none_left (start_mark marker) "" before
              (ap (cut (start_mark marker)) (nil-append before) ∙ none_))

    -- Behind an artifact without a start mark, the first one is that of the block.
    appended-read :
        (artifact : String)
        → cut (start_mark marker) artifact ≡ none
        → (b : String) × (cut
              (start_mark marker)
              (artifact ^^ (separator artifact ^^ (block learned marker ^^ "\n")))
            ≡ some (b, tail learned marker "\n"))
    appended-read artifact none_ =
        let added = block learned marker ^^ "\n" in
        let start = start_mark marker in
        elim (Bool-cases (artifact == "")) [
          | inl e ↦
              let sep : separator artifact ≡ "" = rw e refl in
              (
                "",
                ap (cut start) (
                      ap (λ t. artifact ^^ (t ^^ added)) sep
                      ∙ ap (λ t. t ^^ ("" ^^ added)) ((eq_iff artifact "").0 e)
                      ∙ nil-append ("" ^^ added)
                      ∙ nil-append added
                      ∙ block-eq learned marker "\n")
                    ∙ cut-here start (tail learned marker "\n"),
              )
          | inr e ↦ elim (Bool-cases (ends_line artifact)) [
            | inl ended ↦
                let sep : separator artifact ≡ "\n" = rw e (rw ended refl) in
                (
                  artifact ^^ "\n",
                  ap (λ t. cut start (artifact ^^ t)) (ap (λ t. t ^^ added) sep ∙ line_end added)
                      ∙ at_end artifact "\n" none_,
                )
            | inr unended ↦
                let sep : separator artifact ≡ "\n\n" = rw e (rw unended refl) in
                (
                  (artifact ^^ "\n") ^^ "\n",
                  ap (λ t. cut start (artifact ^^ t))
                        (ap (λ t. t ^^ added) sep ∙ append_assoc "\n" "\n" added)
                      ∙ ap (cut start) (
                          sym (append_assoc artifact "\n" ("\n" ^^ added))
                          ∙ ap (λ t. (artifact ^^ "\n") ^^ t) (line_end added))
                      ∙ at_end (artifact ^^ "\n") "\n" (begun artifact none_),
                )
          ]
        ]

no_start :
    (artifact marker : String)
    → region artifact marker ≡ none
    → (region artifact marker ≢ none) ⊎ (cut (start_mark marker) artifact ≡ none)
    → cut (start_mark marker) artifact ≡ none
no_start artifact marker none_ (inl some_) = absurd (some_ none_)
no_start artifact marker none_ (inr absent) = absent

-- Under marks of one line, the text that was put in is read back without the white space at its
-- ends, if it holds no end mark itself, and if the artifact had the region or no start mark.
pub current_learned-apply_learned :
    (artifact learned marker : String)
    → is_free 10 marker ≡ true
    → cut (end_mark marker) learned ≡ none
    → (region artifact marker ≢ none) ⊎ (cut (start_mark marker) artifact ≡ none)
    → current_learned (apply_learned artifact learned marker) marker ≡ trim_space learned
unfolding apply_learned
current_learned-apply_learned artifact learned marker free absent place =
    elim (Option-cases (region artifact marker)) [
      | inl none_ ↦
          let fresh = no_start artifact marker none_ place in
          let (b, found) = appended-read learned marker free absent artifact fresh in
          read_back learned marker free absent (apply_learned artifact learned marker) b "\n"
            (rw none_ (ap (cut (start_mark marker)) (appended-eq artifact learned marker) ∙ found))
      | inr ((before, after), found) ↦
          let (rest, upto, at_start, at_end_, shorter) =
            region_inv artifact marker before after found in
          read_back learned marker free absent (apply_learned artifact learned marker) before after
            (rw found (
              ap (λ t. cut (start_mark marker) (before ^^ t))
                (ap (λ t. block learned marker ^^ t) (append-nil after)
                  ∙ block-eq learned marker after)
              ∙ cut-again (start_mark marker) artifact before rest (tail learned marker after)
                  at_start))
    ]

-- A text that goes on is cut where it was.
cut-longer : (sep s b a v : String) → cut sep s ≡ some (b, a) → cut sep (s ^^ v) ≡ some (b, a ^^ v)
cut-longer sep s b a v h =
    ap (cut sep) (
      ap (λ t. t ^^ v) (cut-eq sep s b a h)
      ∙ append_assoc b (sep ^^ a) v
      ∙ ap (λ t. b ^^ t) (append_assoc sep a v))
    ∙ cut-again sep s b a (a ^^ v) h

-- Where the first end mark of the artifact does not come behind the first start mark, and another one
-- does, no region is found to replace although one is read: what is read of the artifact after an
-- edit is what was read before it, the text behind the first start mark up to that end mark.
pub apply_learned_lost :
    (artifact learned marker before rest body after upto behind : String)
    → cut (start_mark marker) artifact ≡ some (before, rest)
    → cut (end_mark marker) rest ≡ some (body, after)
    → cut (end_mark marker) artifact ≡ some (upto, behind)
    → len upto ≤ len before
    → (region artifact marker ≡ none)
      × (current_learned artifact marker ≡ trim_space body)
      × (current_learned (apply_learned artifact learned marker) marker ≡ trim_space body)
unfolding apply_learned current_learned
apply_learned_lost artifact learned marker before rest body after upto behind at_start at_end_ first
      early =
    let none_ =
      (region-Lacks artifact marker).1
        (inr (inr (before, rest, upto, behind, at_start, first, early))) in
    let added = separator artifact ^^ (block learned marker ^^ "\n") in
    let longer : cut (start_mark marker) (artifact ^^ added) ≡ some (before, rest ^^ added) =
      cut-longer (start_mark marker) artifact before rest added at_start in
    let shape_ : apply_learned artifact learned marker ≡ artifact ^^ added =
      rw none_ (appended-eq artifact learned marker) in
    (
      none_,
      rw at_start (rw at_end_ refl),
      ap (λ t. current_learned t marker) shape_
          ∙ rw longer (rw (cut-longer (end_mark marker) rest body after added at_end_) refl),
    )
