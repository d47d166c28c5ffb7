-- ===== src/Nfr/Laws.antt =====
-- What the ordering of a valid spec buys.
use agentic_dev_harness.Shared.{◌≡◌, Bool, true, false, none, String, if◌then◌else◌, arith}
use agentic_dev_harness.Adh.Error.{switch, switch-none}
use agentic_dev_harness.Float.{Float, IsOrdered}
use agentic_dev_harness.Nfr.{Spec, is_higher, meets, ordered, valid, valid_cases}

module _ (float : Float) (laws : IsOrdered float) where
  open float use {F, le}

  -- At least as good as a level, on the side that the direction calls good.
  abbrev pub reaches : Spec F → F → F → Bool
  reaches s level value = if is_higher s.direction then le level value else le value level

  valid-ordered :
      (quote : String → String) (s : Spec F) → valid float quote s ≡ none → ordered float s ≡ true
  unfolding valid_cases switch valid
  valid-ordered quote s h =
      let (id, (tag, (scale, (meter, (direction, (order, end)))))) =
        switch-none (valid_cases float quote s) h in
      ground (arith, order)

  -- In a valid spec a measurement that reaches the goal, or the stretch level of a spec that states
  -- one, also clears the failure bar.
  meets-goal :
      (quote : String → String) (s : Spec F) (value : F)
      → valid float quote s ≡ none
      → (reaches s s.goal value ≡ true → meets float s value ≡ true)
        × (float.eq s.stretch float.zero ≡ false
            → reaches s s.stretch value ≡ true
            → meets float s value ≡ true)
  unfolding meets ordered
  meets-goal quote s value h =
      let good = valid-ordered quote s h in
      (
        λ r.
            ground
              (arith, good, laws.le_trans s.fail s.goal value, laws.le_trans value s.goal s.fail),
        λ stated r. ground (
          arith,
          good,
          laws.le_trans s.fail s.goal value,
          laws.le_trans value s.goal s.fail,
          laws.le_trans s.goal s.stretch value,
          laws.le_trans value s.stretch s.goal,
        ),
      )
