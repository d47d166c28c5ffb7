-- ===== src/Consolidate/Modes/Laws.antt =====
-- What is reflected on, described without maps, and how much of it is proposed.
use Prim.Native.String
use text.Mathlib.TextLemmas.{append-nil}
use mathlib.Core.List.{Memᴰ}
use mathlib.Core.List.Memᴰ
use agentic_dev_harness.Shared.{
  ℕ, zero, suc, ◌+◌, ◌-◌, ◌<◌, ◌≡◌, refl, sym, ap, ◌∙◌, ◌↔◌, ◌≢◌, ◌⊎◌, inl, inr, Bool, true, false,
  not, ◌&&◌, List, [], ◌∷◌, ◌++◌, String, ◌==◌, filter, map, length, concat, take, ltb, leb, str_lt,
  All-filter, IsSorted, IsStrict, sort_by-IsSorted, Memᴰ-sort_by, Memᴰ-of_sort_by, Memᴰ-filter,
  Memᴰ-of_map, any-Memᴰ, Memᴰ-any, concat-append, length-map, length-take-le, Bool-cases, eq_iff,
  arith,
}
use agentic_dev_harness.Shared.Order.{str_lt-IsStrict, by_number-IsStrict}
use agentic_dev_harness.Lesson.{Lesson, distill}
use agentic_dev_harness.Lesson.Laws.{of_class, distill_iff}
use agentic_dev_harness.Consolidate.Signals.{Signal, collect_failures, collect_successes}
use agentic_dev_harness.Consolidate.Modes.{
  ModeKind, failure, success, Mode, mode_before, mode_of, modes_from, in_modes, reflect,
  effective_budget, bullet, render, propose,
}

mode_before-IsStrict : IsStrict mode_before
mode_before-IsStrict =
    by_number-IsStrict (λ m. m.count) (λ a b. str_lt a.class b.class)
      (record {
        asym = λ a b. str_lt-IsStrict.asym a.class b.class;
        chain = λ a b c. str_lt-IsStrict.chain a.class b.class c.class;
      })

-- A mode that counts the items of its class, of which there is one.
abbrev pub Counts : List String → ModeKind → Mode → Type 0
Counts items kind m = (m.kind ≡ kind) × (m.count ≡ length (of_class m.class items)) × (0 < m.count)

length_pos : (xs : List String) → xs ≢ [] → 0 < length xs
length_pos [] h = absurd (h refl)
length_pos (x ∷ xs) h = omega arith

mode_eq :
    (m : Mode) (l : Lesson) (kind : ModeKind)
    → m.kind ≡ kind
    → m.count ≡ length l.instances
    → m.class ≡ l.class
    → m ≡ mode_of kind l
mode_eq m l kind p q r = λ i. record { class = r i; kind = p i; count = q i }

modes_from_iff :
    (items : List String) (kind : ModeKind) (m : Mode)
    → Memᴰ m (modes_from items kind) ↔ Counts items kind m
unfolding modes_from
modes_from_iff items kind m = (
  λ k.
      let (l, found, e) =
        Memᴰ-of_map (mode_of kind) (distill items) m
          (Memᴰ-of_sort_by mode_before (map (mode_of kind) (distill items)) k) in
      let (some_, all_) = ((distill_iff items).1 l).0 found in
      let class_ = ap (λ (n : Mode). n.class) e in
      (
        ap (λ (n : Mode). n.kind) e,
        ap (λ (n : Mode). n.count) e ∙ ap length (all_ ∙ ap (λ c. of_class c items) (sym class_)),
        rw (ap (λ (n : Mode). n.count) e) (length_pos l.instances some_),
      ),
  λ (same, counted, pos).
      let l : Lesson = record { class = m.class; instances = of_class m.class items } in
      let full : of_class m.class items ≢ [] =
        λ e. absurd (omega (arith, counted, pos, ap length e)) in
      let found = ((distill_iff items).1 l).1 (full, refl) in
      Memᴰ-sort_by mode_before (map (mode_of kind) (distill items))
        (rw (mode_eq m l kind same counted refl) (Memᴰ.map (mode_of kind) found)),
)

modes_from-IsSorted :
    (items : List String) (kind : ModeKind) → IsSorted mode_before (modes_from items kind)
unfolding modes_from
modes_from-IsSorted items kind =
    sort_by-IsSorted mode_before-IsStrict (map (mode_of kind) (distill items))

filter-IsSorted :
    (p : Mode → Bool) (modes : List Mode)
    → IsSorted mode_before modes
    → IsSorted mode_before (filter p modes)
filter-IsSorted p [] s = tt
filter-IsSorted p (m ∷ modes) s = elim (Bool-cases (p m)) [
  | inl e ↦
      rw e (All-filter (λ n. mode_before n m ≡ false) p modes s.0, filter-IsSorted p modes s.1)
  | inr e ↦ rw e (filter-IsSorted p modes s.1)
]

length_cases : (xs : List String) → (xs ≡ []) ⊎ (0 < length xs)
length_cases [] = inl refl
length_cases (x ∷ xs) = inr (omega arith)

true_not_false : true ≢ false
true_not_false h = cc

not-true : (b : Bool) → not b ≡ true → b ≡ false
not-true b h = ground (arith, h)

in_modes_iff :
    (items : List String) (class : String)
    → (in_modes (modes_from items failure) class ≡ false) ↔ (of_class class items ≡ [])
in_modes_iff items class = (
  λ h. elim (length_cases (of_class class items)) [
    | inl e ↦ e
    | inr pos ↦
        let m : Mode = record {
          class = class;
          kind = failure;
          count = length (of_class class items);
        } in
        let there = (modes_from_iff items failure m).1 (refl, refl, pos) in
        let self : (class == class) ≡ true = (eq_iff class class).1 refl in
        let seen =
          Memᴰ-any (λ (n : Mode). n.class == class) (modes_from items failure) m there self in
        absurd (true_not_false (sym seen ∙ h))
  ],
  λ e. elim (Bool-cases (in_modes (modes_from items failure) class)) [
    | inl seen ↦
        let (m, there, same) =
          any-Memᴰ (λ (n : Mode). n.class == class) (modes_from items failure) seen in
        let (kind, counted, pos) = (modes_from_iff items failure m).0 there in
        let empty : of_class m.class items ≡ [] =
          ap (λ c. of_class c items) ((eq_iff m.class class).0 same) ∙ e in
        absurd (omega (arith, counted, pos, ap length empty))
    | inr unseen ↦ unseen
  ],
)

-- Failure modes and success modes stand in the order of their counts. A mode is a failure mode exactly
-- if it counts the failure items of its class, at least one, and a success mode exactly if it so
-- counts success items and no failure item has its class.
pub reflect_iff :
    (signals : List Signal)
    → IsSorted mode_before (reflect signals).failures
      × IsSorted mode_before (reflect signals).successes
      × ((m : Mode)
          → (Memᴰ m (reflect signals).failures ↔ Counts (collect_failures signals) failure m)
            × (Memᴰ m (reflect signals).successes ↔ (
                Counts (collect_successes signals) success m
                × (of_class m.class (collect_failures signals) ≡ []))))
unfolding reflect
reflect_iff signals =
    let items = collect_failures signals in
    let failures = modes_from items failure in
    let successes = modes_from (collect_successes signals) success in
    let fresh = λ (m : Mode). not (in_modes failures m.class) in
    (
      modes_from-IsSorted items failure,
      filter-IsSorted fresh successes (modes_from-IsSorted (collect_successes signals) success),
      λ m. (
        modes_from_iff items failure m,
        (
          λ k.
              let (there, new) = (Memᴰ-filter fresh successes m).0 k in
              (
                (modes_from_iff (collect_successes signals) success m).0 there,
                (in_modes_iff items m.class).0 (not-true (in_modes failures m.class) new),
              ),
          λ (counted, none_). (Memᴰ-filter fresh successes m).1 (
            (modes_from_iff (collect_successes signals) success m).1 counted,
            rw ((in_modes_iff items m.class).1 none_) refl,
          ),
        ),
      ),
    )

-- All bullets, if the budget is 0, and otherwise as many of the first ones.
abbrev pub clip : ℕ → List String → List String
clip zero bullets = bullets
clip (suc n) bullets = take (suc n) bullets

-- With room for `n` more bullets, the first `n` are written.
render-eq :
    (n budget used : ℕ) (lead : String) (modes : List Mode)
    → 0 < budget
    → budget ≡ used + n
    → ((render budget lead modes used).0 ≡ concat (map (bullet lead) (take n modes)))
      × ((render budget lead modes used).1 ≡ used + length (take n modes))
unfolding render
render-eq zero budget used lead [] h e = (refl, omega arith)
render-eq (suc n) budget used lead [] h e = (refl, omega arith)
render-eq zero budget used lead (m ∷ modes) h e =
    let full : (ltb 0 budget && leb budget used) ≡ true = ground (arith, h, e) in
    rw full (refl, omega arith)
render-eq (suc n) budget used lead (m ∷ modes) h e =
    let room : (ltb 0 budget && leb budget used) ≡ false = ground (arith, h, e) in
    let (text, after) = render-eq n budget (used + 1) lead modes h (omega (arith, e)) in
    rw room (
      ap (String.◌++◌ (bullet lead m)) (append-nil (render budget lead modes (used + 1)).0 ∙ text),
      omega (arith, after),
    )

render-all :
    (used : ℕ) (lead : String) (modes : List Mode)
    → (render 0 lead modes used).0 ≡ concat (map (bullet lead) modes)
unfolding render
render-all used lead [] = refl
render-all used lead (m ∷ modes) =
    ap (String.◌++◌ (bullet lead m))
      (append-nil (render 0 lead modes (used + 1)).0 ∙ render-all (used + 1) lead modes)

take-append :
    (n : ℕ) (xs ys : List String)
    → take n (xs ++ ys) ≡ take n xs ++ take (n - length (take n xs)) ys
take-append zero xs ys = refl
take-append (suc n) [] ys = let all_ : suc n ≡ suc n - 0 = omega arith in ap (λ k. take k ys) all_
take-append (suc n) (x ∷ xs) ys =
    let less : n - length (take n xs) ≡ suc n - suc (length (take n xs)) = omega arith in
    ap (λ l. x ∷ l) (take-append n xs ys ∙ ap (λ k. take n xs ++ take k ys) less)

map-take : (f : Mode → String) (n : ℕ) (xs : List Mode) → map f (take n xs) ≡ take n (map f xs)
map-take f zero xs = refl
map-take f (suc n) [] = refl
map-take f (suc n) (x ∷ xs) = ap (λ l. f x ∷ l) (map-take f n xs)

clip-eq :
    (n : ℕ) (first second : String) (modes others : List Mode)
    → take n (map (bullet first) modes ++ map (bullet second) others)
      ≡ map (bullet first) (take n modes)
        ++ map (bullet second) (take (n - length (take n modes)) others)
clip-eq n first second modes others =
    let same : length (take n (map (bullet first) modes)) ≡ length (take n modes) =
      ap length (sym (map-take (bullet first) n modes))
      ∙ length-map (bullet first) (take n modes) in
    take-append n (map (bullet first) modes) (map (bullet second) others) ∙ (λ i.
      sym (map-take (bullet first) n modes) i
      ++ (ap (λ k. take (n - k) (map (bullet second) others)) same
            ∙ sym (map-take (bullet second) (n - length (take n modes)) others))
          i)

-- The bullets of two lists of modes, the second written behind the first.
render_both :
    (budget : ℕ) (first second : String) (modes others : List Mode)
    → concat (
        (render budget first modes 0).0
        ∷ (render budget second others (render budget first modes 0).1).0
        ∷ [])
      ≡ concat (clip budget (map (bullet first) modes ++ map (bullet second) others))
render_both zero first second modes others =
    let used = (render 0 first modes 0).1 in
    (λ i.
      String.◌++◌ (render-all 0 first modes i)
        ((append-nil (render 0 second others used).0 ∙ render-all used second others) i))
    ∙ sym (concat-append (map (bullet first) modes) (map (bullet second) others))
render_both (suc n) first second modes others =
    let (guards, used) = render-eq (suc n) (suc n) 0 first modes (omega arith) (omega arith) in
    let room = suc n - length (take (suc n) modes) in
    let bound = length-take-le (suc n) modes in
    let after = (render (suc n) first modes 0).1 in
    let (keeps, _) =
      render-eq room (suc n) after second others (omega arith) (omega (arith, used, bound)) in
    (λ i. String.◌++◌ (guards i) ((append-nil (render (suc n) second others after).0 ∙ keeps) i))
    ∙ sym (
        concat-append (map (bullet first) (take (suc n) modes))
          (map (bullet second) (take room others)))
    ∙ ap concat (sym (clip-eq (suc n) first second modes others))

-- A proposal has a bullet for each failure mode and then for each success mode, in order, clipped to
-- the budget of the round.
pub propose-clip :
    (signals : List Signal) (edit_budget round : ℕ)
    → propose signals edit_budget round
      ≡ concat (
          clip (effective_budget edit_budget round) (
            map (bullet "- Guard against: ") (reflect signals).failures
            ++ map (bullet "- Keep doing: ") (reflect signals).successes))
unfolding propose
propose-clip signals edit_budget round =
    render_both (effective_budget edit_budget round) "- Guard against: " "- Keep doing: "
      (reflect signals).failures (reflect signals).successes
