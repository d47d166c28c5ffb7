-- ===== src/Context/Freshness.antt =====
-- internal/contextstore/freshness.go and the unit of contextstore.go: whether a unit still is what
-- it was when its integrity tool looked at it.
use agentic_dev_harness.Shared.{
  Option, none, some, List, [], ◌∷◌, String, ◌==◌, if◌then◌else◌, map, lookup, insert,
}
use agentic_dev_harness.Context.Trust.{Trust, TrustTier, unverified, tier}

-- `unknown` is the empty state.
pub data Freshness : Type 0 where
  unknown fresh drifted not_applicable : Freshness

pub record IntegrityRecord : Type 0 where
  pub unit : String
  pub tool : String
  pub result : String

-- A quote that a unit asserts, and where it should be found.
pub record Claim : Type 0 where
  pub quote : String
  pub source : String

-- `Unit`, without its performance indicators, which none of this reads
pub record ContextUnit : Type 0 where
  pub id : String
  pub kind : String
  pub labels : List String
  pub paths : List String
  pub owner : String
  pub content_path : String
  pub provenance : String
  pub sources : List String
  pub claims : List Claim
  pub integrity : String
  pub verified : Trust
  pub superseded_by : String
  pub freshness : Freshness

-- The map `latest` of `ApplyFreshness`: a later record of a unit replaces an earlier one.
unfoldable pub latest_from : List (String × String) → List IntegrityRecord → List (String × String)
unfolding insert
latest_from latest [] = latest
latest_from latest (r ∷ records) = latest_from (insert r.unit r.result latest) records

abbrev or_empty : Option String → String
or_empty none = ""
or_empty (some s) = s

-- `freshnessOf`: a missing key of the map reads as the empty text.
unfoldable pub freshness_of : ContextUnit → List (String × String) → Freshness
unfolding lookup
freshness_of u latest =
    let result = or_empty (lookup u.id latest) in
    if u.integrity == ""
    then not_applicable
    else if result == "ok"
    then fresh
    else if result == "drift"
    then drifted
    else unknown

abbrev with_freshness : Freshness → ContextUnit → ContextUnit
with_freshness f u = record u { freshness = f }

-- `ApplyFreshness`
unfoldable pub apply_freshness : List ContextUnit → List IntegrityRecord → List ContextUnit
unfolding latest_from freshness_of
apply_freshness units records =
    let latest = latest_from [] records in map (λ u. with_freshness (freshness_of u latest) u) units

abbrev suppressed : Freshness → TrustTier → TrustTier
suppressed drifted t = unverified
suppressed _ t = t

-- `(*Unit).EffectiveTier`
unfoldable pub effective_tier : ContextUnit → TrustTier
unfolding tier
effective_tier u = suppressed u.freshness (tier u.verified)
