-- ===== src/Shared/Keys.antt =====
-- Sets and orders of texts: a Go `map[string]bool` that is only added to is the list of its keys,
-- each once, and `sort.Strings` sorts by the order of the bytes.
use Prim.Native.String.{String, compare}
use mathlib.Core.Path.{◌≡◌}
use mathlib.Core.Bool.{Bool, false, ◌||◌}
use mathlib.Core.List.{List, [], ◌∷◌}
use native.Mathlib.Omega.{arith}
use text.Mathlib.Text.{◌==◌, is_lt}
use text.Mathlib.TextEquality.{eq_iff}
use agentic_dev_harness.Shared.Tests.{if◌then◌else◌, Bool-cases}
use agentic_dev_harness.Shared.Sorting.{sort_by}

-- `s < t` on strings
abbrev pub str_lt : String → String → Bool
str_lt s t = is_lt (compare s t)

abbrev pub sort_strings : List String → List String
sort_strings = sort_by str_lt

-- `seen[key]`
abbrev pub has : String → List String → Bool
has key [] = false
has key (x ∷ xs) = x == key || has key xs

-- `seen[key] = true`
abbrev pub add : String → List String → List String
add key seen = if has key seen then seen else key ∷ seen

-- The keys of a list, each once.
abbrev pub add_all : List String → List String → List String
add_all [] seen = seen
add_all (x ∷ xs) seen = add_all xs (add x seen)

pub has-add :
    (j key : String) (seen : List String) → has j (add key seen) ≡ (key == j || has j seen)
has-add j key seen = ground (arith, eq_iff key j, Bool-cases (has key seen))
