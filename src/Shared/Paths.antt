-- ===== src/Shared/Paths.antt =====
-- `filepath.Join` of a directory and a name, on Unix: the cleaned path.
use Prim.Native.Char.{code}
use Prim.Native.String
use Prim.Native.String.{String}
use mathlib.Core.Bool.{Bool, true, false, ◌||◌}
use mathlib.Core.List.{List, [], ◌∷◌}
use text.Mathlib.Text.{◌==◌}
use agentic_dev_harness.Shared.Tests.{eqb, if◌then◌else◌}
use agentic_dev_harness.Shared.Strings.{concat, join}

abbrev onto : String → List String → List String
onto c [] = c ∷ []
onto c (part ∷ parts) = String.◌++◌ c part ∷ parts

-- The parts of a path between its slashes.
unfoldable pub parts_of : String → List String
parts_of String.[] = "" ∷ []
parts_of (String.◌∷◌ c s) =
    let rest = parts_of s in if eqb (code c) 47 then "" ∷ rest else onto (String.◌∷◌ c "") rest

-- `..` takes the last part away, unless there is none or that is `..` itself.
abbrev up : Bool → List String → List String
up true [] = []
up false [] = ".." ∷ []
up rooted (last ∷ kept) = if last == ".." then ".." ∷ last ∷ kept else kept

-- The parts that are kept, the last one first.
unfoldable pub kept_parts : Bool → List String → List String → List String
kept_parts rooted [] kept = kept
kept_parts rooted (part ∷ parts) kept = kept_parts rooted parts (
    if part == "" || part == "."
    then kept
    else if part == ".."
    then up rooted kept
    else part ∷ kept)

unfoldable pub backwards : List String → List String → List String
backwards [] done = done
backwards (part ∷ parts) done = backwards parts (part ∷ done)

abbrev is_rooted : List String → Bool
is_rooted (part ∷ next ∷ parts) = part == ""
is_rooted _ = false

abbrev put_together : Bool → List String → String
put_together true parts = concat ("/" ∷ join "/" parts ∷ [])
put_together false [] = "."
put_together false (part ∷ parts) = join "/" (part ∷ parts)

-- `filepath.Clean`
unfoldable pub clean_path : String → String
unfolding parts_of kept_parts backwards
clean_path path =
    let parts = parts_of path in
    put_together (is_rooted parts) (backwards (kept_parts (is_rooted parts) parts []) [])

-- `filepath.Join`, where neither is empty
unfoldable pub join_path : String → String → String
unfolding clean_path
join_path dir name = clean_path (concat (dir ∷ "/" ∷ name ∷ []))
