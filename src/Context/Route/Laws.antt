-- ===== src/Context/Route/Laws.antt =====
-- What `Route` selects, described without the loop.
use mathlib.Core.List.{Memᴰ}
use agentic_dev_harness.Shared.{
  ℕ, zero, suc, ◌≤◌, ◌<◌, ◌≡◌, refl, ap, ◌≢◌, ◌⊎◌, inl, inr, Bool, true, false, ◌&&◌, List, [], ◌∷◌,
  String, ◌==◌, map, ltb, filter, take, length, All, All-of, All-take, Memᴰ-filter, Bool-cases,
  sort_by, All-sort_by, Memᴰ-sort_by, str_lt, sort_by-IsSorted, sort_by-map, take-or_after,
  take-IsSorted, IsSorted-weaken, eqb, not, if◌then◌else◌, length-take-le, IsSorted, IsStrict,
  arith, eq_iff,
}
use agentic_dev_harness.Shared.Order.{str_lt-IsStrict, by_number, by_number-IsStrict}
use agentic_dev_harness.Context.Trust.{rank}
use agentic_dev_harness.Context.Freshness.{ContextUnit, effective_tier}
use agentic_dev_harness.Context.Route.{Scored, match_score, rank_before, ranked, capped, route}

-- `rankBefore` is a strict order.
rank_before-IsStrict : IsStrict rank_before
unfolding rank_before
rank_before-IsStrict =
    by_number-IsStrict (λ s. s.score)
      (by_number (λ s. rank (effective_tier s.unit)) (λ s t. str_lt s.unit.id t.unit.id))
      (by_number-IsStrict (λ s. rank (effective_tier s.unit)) (λ s t. str_lt s.unit.id t.unit.id)
        (record {
          asym = λ s t. str_lt-IsStrict.asym s.unit.id t.unit.id;
          chain = λ s t u. str_lt-IsStrict.chain s.unit.id t.unit.id u.unit.id;
        }))

module _ (labels paths : List String) where
  -- A unit that `Route` considers: not superseded, and with a label or a path in common.
  abbrev pub routable : ContextUnit → Bool
  routable u = (u.superseded_by == "") && ltb 0 (match_score u labels paths)

  abbrev pub score_of : ContextUnit → Scored
  score_of u = record { unit = u; score = match_score u labels paths }

  -- The order of the units by their scores.
  abbrev pub unit_before : ContextUnit → ContextUnit → Bool
  unit_before u v = rank_before (score_of u) (score_of v)

  ranked-eq :
      (units : List ContextUnit) → ranked units labels paths ≡ map score_of (filter routable units)
  unfolding ranked
  ranked-eq [] = refl
  ranked-eq (u ∷ units) = elim (Bool-cases (u.superseded_by == "")) [
    | inl here ↦ elim (Bool-cases (ltb 0 (match_score u labels paths))) [
      | inl some_ ↦ simp (here, some_, ranked-eq units)
      | inr none_ ↦ simp (here, none_, ranked-eq units)
    ]
    | inr gone ↦ simp (gone, ranked-eq units)
  ]

  capped-map :
      (n : ℕ) (us : List ContextUnit) → map (λ s. s.unit) (capped n (map score_of us)) ≡ capped n us
  capped-map zero us = all_units us
    where
      all_units : (vs : List ContextUnit) → map (λ s. s.unit) (map score_of vs) ≡ vs
      all_units [] = refl
      all_units (v ∷ vs) = ap (λ l. v ∷ l) (all_units vs)
  capped-map (suc n) us = first_units (suc n) us
    where
      first_units :
          (k : ℕ) (vs : List ContextUnit) → map (λ s. s.unit) (take k (map score_of vs)) ≡ take k vs
      first_units zero vs = refl
      first_units (suc k) [] = refl
      first_units (suc k) (v ∷ vs) = ap (λ l. v ∷ l) (first_units k vs)

  -- The units considered, in the order of `Route`.
  abbrev considered : List ContextUnit → List ContextUnit
  considered units = sort_by unit_before (filter routable units)

  route-eq :
      (units : List ContextUnit) (n : ℕ) → route units labels paths n ≡ capped n (considered units)
  unfolding route
  route-eq units n =
      rw (ranked-eq units, sort_by-map rank_before score_of (filter routable units))
        (capped-map n (considered units))

  unit_before-IsStrict : IsStrict unit_before
  unit_before-IsStrict = record {
    asym = λ u v. rank_before-IsStrict.asym (score_of u) (score_of v);
    chain = λ u v w. rank_before-IsStrict.chain (score_of u) (score_of v) (score_of w);
  }

  -- What a working set is: each unit in it is one of the store, current and matching.
  pub record IsSelected (units : List ContextUnit) (u : ContextUnit) : Type 0 where
    pub stored : Memᴰ u units
    pub current : u.superseded_by ≡ ""
    pub matches : 0 < match_score u labels paths

  routable-IsSelected : (units : List ContextUnit) → All (IsSelected units) (filter routable units)
  routable-IsSelected units = All-of (IsSelected units) (filter routable units) λ u m.
      let (stored, test) = (Memᴰ-filter routable units u).0 m in
      record {
        stored = stored;
        current = (eq_iff u.superseded_by "").0 (ground (arith, test));
        matches = ground (arith, test);
      }

  All-capped :
      (P : ContextUnit → Type 0) (n : ℕ) (us : List ContextUnit) → All P us → All P (capped n us)
  All-capped P zero us h = h
  All-capped P (suc n) us h = All-take P (suc n) us h

  capped-IsSorted :
      (n : ℕ) (us : List ContextUnit) → IsSorted unit_before us → IsSorted unit_before (capped n us)
  capped-IsSorted zero us s = s
  capped-IsSorted (suc n) us s = take-IsSorted unit_before (suc n) us s

  capped-or_after :
      (n : ℕ) (us : List ContextUnit) (u : ContextUnit)
      → IsSorted unit_before us
      → Memᴰ u us
      → Memᴰ u (capped n us)
        ⊎ ((length (capped n us) ≡ n) × All (λ v. unit_before u v ≡ false) (capped n us))
  capped-or_after zero us u s m = inl m
  capped-or_after (suc n) us u s m = take-or_after unit_before (suc n) us u s m

  length-capped-le : (n : ℕ) (us : List ContextUnit) → n ≢ 0 → length (capped n us) ≤ n
  length-capped-le zero us h = absurd (h refl)
  length-capped-le (suc n) us h = length-take-le (suc n) us

  -- A unit matches more of the arc than another.
  abbrev pub matches_more : ContextUnit → ContextUnit → Bool
  matches_more u v = ltb (match_score v labels paths) (match_score u labels paths)

  before-matches_more : (u v : ContextUnit) → unit_before u v ≡ false → matches_more u v ≡ false
  unfolding rank_before
  before-matches_more u v h = by_score (match_score u labels paths) (match_score v labels paths) _ h
    where
      by_score :
          (m n : ℕ) (later : Bool)
          → (if not (eqb m n) then ltb n m else later) ≡ false
          → ltb n m ≡ false
      by_score m n later k = ground (arith, k)

  -- The working set holds only units of the store that no other has superseded and that share a
  -- label or a path with the arc; it stands in the order of score, effective tier and id, so
  -- no unit stands behind one that matches less; under a cap that is not 0 it holds at most that
  -- many; and a unit that qualifies is left out only if the set is as large as the cap and no unit
  -- of it comes after the one left out.
  pub route-selects :
      (units : List ContextUnit) (max_units : ℕ)
      → All (IsSelected units) (route units labels paths max_units)
        × IsSorted unit_before (route units labels paths max_units)
        × IsSorted matches_more (route units labels paths max_units)
        × (max_units ≢ 0 → length (route units labels paths max_units) ≤ max_units)
        × ((u : ContextUnit)
            → IsSelected units u
            → Memᴰ u (route units labels paths max_units)
              ⊎ ((length (route units labels paths max_units) ≡ max_units)
                  × All (λ v. unit_before u v ≡ false) (route units labels paths max_units)))
  route-selects units n = rw (route-eq units n) (
    All-capped (IsSelected units) n (considered units)
        (All-sort_by unit_before _ (filter routable units) (routable-IsSelected units)),
    capped-IsSorted n (considered units) sorted,
    IsSorted-weaken unit_before matches_more before-matches_more _
        (capped-IsSorted n (considered units) sorted),
    length-capped-le n (considered units),
    λ u sel. capped-or_after n (considered units) u sorted (
        Memᴰ-sort_by unit_before (filter routable units)
          ((Memᴰ-filter routable units u).1 (sel.stored, test u sel))),
  )
    where
      sorted : IsSorted unit_before (considered units)
      sorted = sort_by-IsSorted unit_before-IsStrict (filter routable units)

      test : (u : ContextUnit) → IsSelected units u → routable u ≡ true
      test u sel = ground (arith, sel.current, sel.matches, eq_iff u.superseded_by "")
