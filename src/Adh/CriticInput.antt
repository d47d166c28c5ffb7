-- ===== src/Adh/CriticInput.antt =====
-- internal/adh/criticinput.go: the closed vocabulary of the inputs that a critic's view can carry.
use Prim.Native.String.{String}
use agentic_dev_harness.Shared.{
  ◌≡◌, Bool, true, false, List, [], ◌∷◌, ◌==◌, eq_iff, sort_strings, arith, any,
}

abbrev pub input_transcript : String
input_transcript = "transcript"

-- The inputs in the order of the source, before they are sorted.
abbrev input_names : List String
input_names =
    input_transcript ∷ "diff" ∷ "proof" ∷ "acceptance_bar" ∷ "context" ∷ "paths" ∷ "tools"
    ∷ "coverage" ∷ "noisy" ∷ []

-- `CriticInputs`
unfoldable pub critic_inputs : List String
critic_inputs = sort_strings input_names

-- `CriticInput.Known`
unfoldable pub known : String → Bool
unfolding critic_inputs
known c = any (λ k. c == k) critic_inputs

-- `CriticInput.Deniable`
unfoldable pub deniable : String → Bool
deniable c = c == input_transcript

-- The only input that can be denied is known, and the empty name is neither known nor deniable.
deniable-known :
    (c : String) → deniable c ≡ true → (known c ≡ true) × (known "" ≡ false) × (deniable "" ≡ false)
unfolding deniable known
deniable-known c h = ground (arith, eq_iff c "transcript")
