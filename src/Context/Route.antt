-- ===== src/Context/Route.antt =====
-- internal/contextstore/contextstore.go: `Route`. Ties of its order, units of one score, one rank and
-- one id, keep their order here; Go leaves it open.
pub mod Laws
use Prim.Native.String
use agentic_dev_harness.Shared.{
  ℕ, zero, suc, ◌+◌, Bool, true, false, not, ◌||◌, Option, none, some, List, [], ◌∷◌, String, ◌==◌,
  if◌then◌else◌, map, take, ltb, eqb, has, sort_by, str_lt, cut_prefix,
}
use agentic_dev_harness.Context.Trust.{rank}
use agentic_dev_harness.Context.Freshness.{ContextUnit, effective_tier}

pub record Scored : Type 0 where
  pub unit : ContextUnit
  pub score : ℕ

abbrev is_some {ℓ} : {A : Type ℓ} → Option A → Bool
is_some none = false
is_some (some a) = true

-- `ap == up || strings.HasPrefix(ap, up+"/")`
unfoldable pub governs : String → String → Bool
unfolding cut_prefix
governs up path = path == up || is_some (cut_prefix (String.◌++◌ up "/") path)

-- The members that pass a test, counted.
unfoldable pub count {ℓ} : {A : Type ℓ} → (A → Bool) → List A → ℕ
count p [] = 0
count p (x ∷ xs) = let rest = count p xs in if p x then suc rest else rest

-- The nested loop over the unit's paths and the arc's.
unfoldable pub path_hits : List String → List String → ℕ
unfolding governs count
path_hits [] paths = 0
path_hits (up ∷ ups) paths = count (governs up) paths + path_hits ups paths

-- `matchScore`
unfoldable pub match_score : ContextUnit → List String → List String → ℕ
unfolding path_hits count
match_score u want paths = count (λ l. has l want) u.labels + path_hits u.paths paths

-- `rankBefore`
unfoldable pub rank_before : Scored → Scored → Bool
unfolding effective_tier rank
rank_before a b =
    let tier_a = rank (effective_tier a.unit) in
    let tier_b = rank (effective_tier b.unit) in
    if not (eqb a.score b.score)
    then ltb b.score a.score
    else if not (eqb tier_a tier_b)
    then ltb tier_b tier_a
    else str_lt a.unit.id b.unit.id

-- The first loop of `Route`.
unfoldable pub ranked : List ContextUnit → List String → List String → List Scored
unfolding match_score
ranked [] labels paths = []
ranked (u ∷ units) labels paths =
    let rest = ranked units labels paths in
    let s = match_score u labels paths in
    if not (u.superseded_by == "")
    then rest
    else if ltb 0 s
    then record { unit = u; score = s } ∷ rest
    else rest

-- `ranked[:maxUnits]` when there are more: a cap of 0 caps nothing, nor does a negative one in Go.
abbrev pub capped {ℓ} : {A : Type ℓ} → ℕ → List A → List A
capped zero xs = xs
capped (suc n) xs = take (suc n) xs

-- `Route`
unfoldable pub route : List ContextUnit → List String → List String → ℕ → List ContextUnit
unfolding ranked rank_before
route units labels paths max_units =
    map (λ s. s.unit) (capped max_units (sort_by rank_before (ranked units labels paths)))
