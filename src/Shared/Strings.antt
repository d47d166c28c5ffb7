-- ===== src/Shared/Strings.antt =====
-- Building texts: concatenation, `strings.Join` and the `%d` of `fmt.Sprintf`.
use Prim.Native.Nat.{ℕ, zero, suc, ◌/◌, ◌%◌}
use Prim.Native.String
use Prim.Native.String.{String}
use mathlib.Core.List.{List, [], ◌∷◌}
use agentic_dev_harness.Shared.Tests.{ltb, if◌then◌else◌}

abbrev pub concat : List String → String
concat [] = ""
concat (x ∷ xs) = String.◌++◌ x (concat xs)

-- `strings.Join(xs, sep)`
abbrev pub join : String → List String → String
join sep [] = ""
join sep (x ∷ []) = x
join sep (x ∷ y ∷ xs) = String.◌++◌ x (String.◌++◌ sep (join sep (y ∷ xs)))

abbrev digits : List String
digits = "0" ∷ "1" ∷ "2" ∷ "3" ∷ "4" ∷ "5" ∷ "6" ∷ "7" ∷ "8" ∷ "9" ∷ []

-- The `n`-th of some texts, and the empty text past their end.
pick : List String → ℕ → String
pick [] n = ""
pick (d ∷ ds) zero = d
pick (d ∷ ds) (suc n) = pick ds n

decimal_from : ℕ → ℕ → String
decimal_from zero n = ""
decimal_from (suc places) n =
    let tens = decimal_from places (n / 10) in
    let units = pick digits (n % 10) in if ltb n 10 then units else String.◌++◌ tens units

-- A number has at most as many digits as its value plus one, which is the fuel.
unfoldable pub decimal : ℕ → String
unfolding decimal_from pick
decimal n = decimal_from (suc n) n
