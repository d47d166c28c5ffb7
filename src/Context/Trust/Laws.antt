-- ===== src/Context/Trust/Laws.antt =====
-- What recording a verification does to a unit's file.
use agentic_dev_harness.Shared.{
  ◌≡◌, refl, ap, ◌≢◌, ◌≤◌, Bool, true, false, not, inl, inr, Option, none, some, List, [], ◌∷◌,
  ◌++◌, String, ◌==◌, is_empty, if◌then◌else◌, Bool-cases, lookup, insert, lookup-insert, eq_iff,
  arith,
}
use agentic_dev_harness.Adh.Error.{Error, Result, ok, err, ok_inv, wrap}
use agentic_dev_harness.Context.Trust.{
  Trust, TrustTier, unset, unverified, machine_confirmed, human_reviewed, other, tier_text, rank,
  actor_class, tier_from, append_event, wrapped, written, or_unverified, tier, TrustCodec,
  stored_trust, record_verification,
}

-- A further event never lowers the tier, and one by a human makes it the highest.
record Raises (by_ : String) (old new : TrustTier) : Type 0 where
  ranked : rank old ≤ rank new
  human : (actor_class by_ == "human") ≡ true → new ≡ human_reviewed

tier_from-snoc :
    (t : TrustTier) (events : List String) (by_ : String)
    → rank t ≤ 1
    → Raises by_ (tier_from t events) (tier_from t (events ++ (by_ ∷ [])))
unfolding tier_from rank
tier_from-snoc t [] by_ low = split (actor_class by_ == "human") (by_ == "") refl
  where
    split :
        (h e : Bool)
        → (actor_class by_ == "human") ≡ h
        → Raises by_ t (if h then human_reviewed else if not e then machine_confirmed else t)
    split true e k = record { ranked = omega (arith, low); human = λ g. refl }
    split false true k = record { ranked = omega arith; human = λ g. absurd (ground (arith, g, k)) }
    split false false k = record { ranked = low; human = λ g. absurd (ground (arith, g, k)) }
tier_from-snoc t (e ∷ events) by_ low =
    split (actor_class e == "human") (e == "")
      (tier_from-snoc machine_confirmed events by_ (omega arith)) (tier_from-snoc t events by_ low)
  where
    split :
        (h b : Bool)
        → Raises by_
            (tier_from machine_confirmed events)
            (tier_from machine_confirmed (events ++ (by_ ∷ [])))
        → Raises by_ (tier_from t events) (tier_from t (events ++ (by_ ∷ [])))
        → Raises by_
            (if h
              then human_reviewed
              else if not b
              then tier_from machine_confirmed events
              else tier_from t events)
            (if h
              then human_reviewed
              else if not b
              then tier_from machine_confirmed (events ++ (by_ ∷ []))
              else tier_from t (events ++ (by_ ∷ [])))
    split true b named unnamed = record { ranked = omega arith; human = λ g. refl }
    split false true named unnamed = unnamed
    split false false named unnamed = named

-- What the record of a unit's verification is after one more event.
abbrev with_event : String → Trust → Trust
with_event by_ t = record { events = t.events ++ (by_ ∷ []); stated = unset }

rank_low : rank unverified ≤ 1
unfolding rank
rank_low = omega arith

bare_low : (s : TrustTier) → (tier_text s == "") ≡ true → rank (or_unverified s) ≡ 0
unfolding rank tier_text
bare_low unset e = refl
bare_low unverified e = refl
bare_low machine_confirmed e = absurd (ground (arith, e))
bare_low human_reviewed e = absurd (ground (arith, e))
bare_low (other x) e = refl

tier-with_event :
    (by_ : String) (events : List String) (stated : TrustTier)
    → (tier_text stated == "") ≡ true
    → let t : Trust = record { events = events; stated = stated } in
      Raises by_ (tier t) (tier (with_event by_ t))
unfolding tier
tier-with_event by_ [] stated bare =
    let r = tier_from-snoc unverified [] by_ rank_low in
    record { ranked = omega (arith, bare_low stated bare); human = r.human }
tier-with_event by_ (e ∷ events) stated bare = tier_from-snoc unverified (e ∷ events) by_ rank_low

snoc-is_empty : (xs : List String) (x : String) → is_empty (xs ++ (x ∷ [])) ≡ false
snoc-is_empty [] x = refl
snoc-is_empty (y ∷ xs) x = refl

wrapped_inv :
    {A : Type 0} {J : Type 0} (codec : TrustCodec J) (r : Result A) (a : A)
    → wrapped codec r ≡ ok a
    → r ≡ ok a
wrapped_inv codec (ok b) a h = h
wrapped_inv codec (err e) a h = cc

module _ {J : Type 0} (codec : TrustCodec J) where
  -- What a recording that succeeds read and wrote.
  record Recorded (by_ : String) (raw raw' : List (String × J)) : Type 0 where
    old : Trust
    encoded : J
    read : stored_trust codec (lookup "verified" raw) ≡ ok old
    bare : (tier_text old.stated == "") ≡ true
    encodes :
        codec.encode (record { events = old.events ++ (by_ ∷ []); stated = old.stated })
        ≡ ok encoded
    wrote : raw' ≡ insert "verified" encoded raw

  written_inv : (raw raw' : List (String × J)) → written codec raw ≡ ok raw' → raw' ≡ raw
  written_inv raw raw' h = split codec.write_fault h
    where
      split :
          (f : Option Error)
          → elim f [ none ↦ ok raw | some e ↦ err (wrap "contextstore.RecordVerification" e) ]
            ≡ ok raw'
          → raw' ≡ raw
      split none h = ground (arith, h)
      split (some e) h = cc

  record_verification-Recorded :
      (by_ : String) (raw raw' : List (String × J))
      → record_verification codec by_ raw ≡ ok raw'
      → Recorded by_ raw raw'
  unfolding record_verification
  record_verification-Recorded by_ raw raw' h =
      let (t, h₁, h₂) =
        ok_inv (stored_trust codec (lookup "verified" raw)) (append_event codec raw by_) raw' h in
      elim (Bool-cases (tier_text t.stated == "")) [
        | inl bare_ ↦
            let new : Trust = record { events = t.events ++ (by_ ∷ []); stated = t.stated } in
            let (j, h₃, h₄) =
              ok_inv (wrapped codec (codec.encode new))
                (λ j. written codec (insert "verified" j raw)) raw' (rw bare_ at h₂) in
            record {
              old = t;
              encoded = j;
              read = h₁;
              bare = bare_;
              encodes = wrapped_inv codec (codec.encode new) j h₃;
              wrote = written_inv (insert "verified" j raw) raw' h₄;
            }
        | inr stated_ ↦ absurd (ground (arith, h₂, stated_))
      ]

  -- Recording a verification changes no other key of the unit's file. It adds the event behind
  -- those there were, so the tier that the file then reads as is no lower than before, and is
  -- human-reviewed if the actor is a human. Assumed is that the encoding of a record with events
  -- decodes to a record of these events, with no stated tier.
  pub record_verification-raises :
      ((t : Trust) (j : J)
        → is_empty t.events ≡ false
        → codec.encode t ≡ ok j
        → codec.decode j ≡ ok (record { events = t.events; stated = unset }))
      → (by_ : String) (raw raw' : List (String × J)) → record_verification codec by_ raw ≡ ok raw'
      → ((key : String) → key ≢ "verified" → lookup key raw' ≡ lookup key raw)
        × ((old : Trust) × (new : Trust) × (stored_trust codec (lookup "verified" raw) ≡ ok old)
            × (stored_trust codec (lookup "verified" raw') ≡ ok new)
            × (new.events ≡ old.events ++ (by_ ∷ []))
            × (rank (tier old) ≤ rank (tier new))
            × ((actor_class by_ == "human") ≡ true → tier new ≡ human_reviewed))
  unfolding stored_trust
  record_verification-raises codes by_ raw raw' h =
      let r = record_verification-Recorded by_ raw raw' h in
      let found : lookup "verified" (insert "verified" r.encoded raw) ≡ some r.encoded =
        ground (arith, lookup-insert "verified" "verified" r.encoded raw) in
      let decodes = codes _ r.encoded (snoc-is_empty r.old.events by_) r.encodes in
      let up = tier-with_event by_ r.old.events r.old.stated r.bare in
      (
        λ key other_.
            let e = lookup-insert "verified" key r.encoded raw in
            rw r.wrote (ground (arith, e, other_, eq_iff "verified" key)),
        (
          r.old,
          with_event by_ r.old,
          r.read,
          rw (r.wrote, found) (ap (wrapped codec) decodes),
          refl,
          up.ranked,
          up.human,
        ),
      )
