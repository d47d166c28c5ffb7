-- ===== src/Context/Trust.antt =====
-- internal/contextstore/trust.go and the tiers of contextstore.go. A verification event is a type
-- of the library skillet, of which these rules read only the actor, `By`; it stands for that here.
-- A file of a unit is the JSON object of its keys, and encoding and decoding are parameters.
pub mod Laws
use agentic_dev_harness.Shared.{
  ℕ, Bool, true, false, not, Option, none, some, List, [], ◌∷◌, ◌++◌, String, ◌==◌, if◌then◌else◌,
  concat, any, all, is_empty, cut_at, lookup, insert,
}
use agentic_dev_harness.Adh.Error.{Error, Result, ok, err, ◌>>=◌, coded, wrap, conflict}

-- The tiers; `unset` is the empty one and `other` every other text.
pub data TrustTier : Type 0 where
  unset unverified machine_confirmed human_reviewed : TrustTier
  other : String → TrustTier

unfoldable pub tier_text : TrustTier → String
tier_text unset = ""
tier_text unverified = "unverified"
tier_text machine_confirmed = "machine-confirmed"
tier_text human_reviewed = "human-reviewed"
tier_text (other s) = s

-- `TrustTier.Valid`
unfoldable pub tier_valid : TrustTier → Bool
tier_valid (other s) = false
tier_valid _ = true

-- `TrustTier.Rank`
unfoldable pub rank : TrustTier → ℕ
rank human_reviewed = 2
rank machine_confirmed = 1
rank _ = 0

-- `events` holds the actors of the events.
pub record Trust : Type 0 where
  pub events : List String
  pub stated : TrustTier

-- `actorClass`: `strings.Cut` at the colon, which is character 58
unfoldable pub actor_class : String → String
unfolding cut_at
actor_class by_ = (cut_at 58 by_).first

-- The loop of `Tier` with the tier that it has reached.
unfoldable pub tier_from : TrustTier → List String → TrustTier
unfolding actor_class
tier_from tier [] = tier
tier_from tier (by_ ∷ events) =
    let named = tier_from machine_confirmed events in
    let unnamed = tier_from tier events in
    if actor_class by_ == "human"
    then human_reviewed
    else if not (by_ == "")
    then named
    else unnamed

-- A tier that is stored directly, the empty one read as unverified.
abbrev pub or_unverified : TrustTier → TrustTier
or_unverified unset = unverified
or_unverified t = t

-- `Trust.Tier`
unfoldable pub tier : Trust → TrustTier
unfolding tier_from
tier t = if is_empty t.events then or_unverified t.stated else tier_from unverified t.events

-- `Trust.Valid`
unfoldable pub trust_valid : Trust → Bool
unfolding tier_valid
trust_valid t =
    if is_empty t.events then tier_valid t.stated else all (λ by_. not (by_ == "")) t.events

abbrev no_trust : Trust
no_trust = record { events = []; stated = unset }

-- Encoding and decoding of the key `verified`, and the errors of the file.
pub record TrustCodec (J : Type 0) : Type 0 where
  pub decode : J → Result Trust
  pub encode : Trust → Result J
  pub write_fault : Option Error

module _ {J : Type 0} (codec : TrustCodec J) where
  abbrev pub wrapped {ℓ} : {A : Type ℓ} → Result A → Result A
  wrapped (ok a) = ok a
  wrapped (err e) = err (wrap "contextstore.RecordVerification" e)

  unfoldable pub stored_trust : Option J → Result Trust
  stored_trust none = ok no_trust
  stored_trust (some stored) = wrapped (codec.decode stored)

  abbrev pub written : List (String × J) → Result (List (String × J))
  written raw = elim codec.write_fault [
    | none ↦ ok raw
    | some e ↦ err (wrap "contextstore.RecordVerification" e)
  ]

  abbrev pub append_event : List (String × J) → String → Trust → Result (List (String × J))
  append_event raw by_ trust =
      if tier_text trust.stated == ""
      then (wrapped
            (codec.encode (record { events = trust.events ++ (by_ ∷ []); stated = trust.stated }))
          >>= λ encoded. written (insert "verified" encoded raw))
      else err (
          coded conflict (
            concat (
              "unit stores a bare trust tier ("
              ∷ tier_text trust.stated
              ∷ "); convert it to a verification list before signing off, since who originally reviewed it is not recorded and adh will not invent one"
              ∷ [])))

  -- `RecordVerification` on a file that was read and decoded into `raw`
  unfoldable pub record_verification : String → List (String × J) → Result (List (String × J))
  unfolding stored_trust tier_text
  record_verification by_ raw =
      stored_trust (lookup "verified" raw) >>= λ trust. append_event raw by_ trust
