-- ===== src/Critic/Coverage/Laws.antt =====
-- The kinds that `UnderCovered` names are those of the least frequency.
use mathlib.Core.List.{Memᴰ}
use mathlib.Core.List.Memᴰ
use mathlib.Core.Path.{subst}
use agentic_dev_harness.Shared.{
  ℕ, ◌≤◌, ◌≡◌, refl, sym, ◌≢◌, ◌↔◌, ◌⊎◌, inl, inr, none, some, List, [], ◌∷◌, ltb, filter, All,
  All-at, All-of, Memᴰ-filter, Bool-cases, arith,
}
use agentic_dev_harness.Adh.Finding.{Kind}
use agentic_dev_harness.Critic.Coverage.{
  CoverageEntry, frequency, least_from, equals_least, under_covered,
}

-- The least value that the loop finds from a start: it lies below the start and all kinds, and is
-- the start or the frequency of a kind.
record IsLeast (freq : Kind → ℕ) (ks : List Kind) (start least : ℕ) : Type 0 where
  below_start : least ≤ start
  below_all : All (λ k. least ≤ freq k) ks
  reached : (least ≡ start) ⊎ ((k : Kind) × Memᴰ k ks × (freq k ≡ least))

least_from_lem :
    (freq : Kind → ℕ) (ks : List Kind) (start : ℕ)
    → (least : ℕ) × (least_from freq ks (some start) ≡ some least) × IsLeast freq ks start least
unfolding least_from
least_from_lem freq [] start =
    (start, refl, record { below_start = omega arith; below_all = tt; reached = inl refl })
least_from_lem freq (k ∷ ks) start = elim (Bool-cases (ltb (freq k) start)) [
  | inl less ↦
      let (least, e, found) = least_from_lem freq ks (freq k) in
      (
        least,
        rw less e,
        record {
          below_start = ground (arith, found.below_start);
          below_all = (found.below_start, found.below_all);
          reached = elim found.reached [
            | inl start_ ↦ inr (k, Memᴰ.head refl, sym start_)
            | inr (j, m, hit) ↦ inr (j, Memᴰ.tail m, hit)
          ];
        },
      )
  | inr more ↦
      let (least, e, found) = least_from_lem freq ks start in
      (
        least,
        rw more e,
        record {
          below_start = found.below_start;
          below_all = (ground (arith, found.below_start), found.below_all);
          reached = elim found.reached [
            | inl start_ ↦ inl start_
            | inr (j, m, hit) ↦ inr (j, Memᴰ.tail m, hit)
          ];
        },
      )
]

-- The least frequency of a list that is not empty.
least_of :
    (freq : Kind → ℕ) (k : Kind) (ks : List Kind)
    → (least : ℕ) × (least_from freq (k ∷ ks) none ≡ some least)
      × All (λ j. least ≤ freq j) (k ∷ ks)
      × ((j : Kind) × Memᴰ j (k ∷ ks) × (freq j ≡ least))
unfolding least_from
least_of freq k ks =
    let (least, e, found) = least_from_lem freq ks (freq k) in
    (
      least,
      e,
      (found.below_start, found.below_all),
      elim found.reached [
        | inl start ↦ (k, Memᴰ.head refl, sym start)
        | inr (j, m, hit) ↦ (j, Memᴰ.tail m, hit)
      ],
    )

-- The kinds whose frequency equals the least one are those that none undercuts.
filter-least :
    (freq : Kind → ℕ) (ks : List Kind) (least : ℕ)
    → All (λ j. least ≤ freq j) ks
    → (j : Kind) × Memᴰ j ks × (freq j ≡ least)
    → (k : Kind)
    → Memᴰ k (filter (λ x. equals_least (some least) (freq x)) ks)
      ↔ (Memᴰ k ks × All (λ j. freq k ≤ freq j) ks)
filter-least freq ks least below (j, m, hit) k =
    let split = Memᴰ-filter (λ x. equals_least (some least) (freq x)) ks k in
    (
      λ named.
          let (member, test) = split.0 named in
          (
            member,
            All-of _ ks
                (λ i mi. let low = All-at _ ks {a = i} below mi in ground (arith, low, test)),
          ),
      λ h.
          let low : least ≤ freq k = All-at _ ks {a = k} below h.0 in
          let high : freq k ≤ freq j = All-at _ ks {a = j} h.1 m in
          split.1 (h.0, ground (arith, low, high, hit)),
    )

-- A kind is named as under-covered exactly if it is one of the kinds asked about and none of these
-- occurs less often in the coverage log; so some kind is named whenever one is asked about.
pub under_covered_iff :
    (entries : List CoverageEntry) (ks : List Kind)
    → ((k : Kind)
        → Memᴰ k (under_covered entries ks)
          ↔ (Memᴰ k ks × All (λ j. frequency entries k ≤ frequency entries j) ks))
      × (ks ≢ [] → (k : Kind) × Memᴰ k (under_covered entries ks))
unfolding under_covered
under_covered_iff entries [] =
    (λ k. (λ m. (absurd (Memᴰ.not-nil m)), λ h. absurd (Memᴰ.not-nil h.0)), λ h. absurd (h refl))
under_covered_iff entries (k₀ ∷ ks) =
    let freq = frequency entries in
    let (least, e, below, (j, m, hit)) = least_of freq k₀ ks in
    let iff : ((k : Kind)
        → Memᴰ k (under_covered entries (k₀ ∷ ks))
          ↔ (Memᴰ k (k₀ ∷ ks) × All (λ i. freq k ≤ freq i) (k₀ ∷ ks))) =
      λ k.
        subst
          (λ l.
            Memᴰ k (filter (λ x. equals_least l (freq x)) (k₀ ∷ ks))
            ↔ (Memᴰ k (k₀ ∷ ks) × All (λ i. freq k ≤ freq i) (k₀ ∷ ks)))
          (sym e) (filter-least freq (k₀ ∷ ks) least below (j, m, hit) k) in
    (
      iff,
      λ h. (
        j,
        (iff j).1 (
          m,
          All-of _ (k₀ ∷ ks) (λ i mi. let low = All-at _ (k₀ ∷ ks) {a = i} below mi in rw hit low),
        ),
      ),
    )
