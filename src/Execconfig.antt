-- ===== src/Execconfig.antt =====
-- internal/execconfig: the files that adh runs or renders must be what HEAD holds. git and the
-- working tree are parameters; the paths of the prompts are the base names that the glob matched.
pub mod Laws
use agentic_dev_harness.Shared.{
  Bool, true, false, Option, none, some, List, [], ◌∷◌, map, String, ◌==◌, if◌then◌else◌, concat,
  join, sort_by, str_lt,
}
use agentic_dev_harness.Adh.Error.{Error, Result, ok, err, ◌>>=◌, coded, conflict, wrap}

-- `Drift`
pub record Drift : Type 0 where
  pub path : String
  pub reason : String

-- What `os.ReadFile` gives of the working tree.
pub data Work : Type 0 where
  absent : Work
  present : String → Work
  unreadable : Error → Work

-- `HeadContent` gives the content of a tracked path, and none of an untracked one.
pub record Tree : Type 0 where
  pub is_repo : Bool
  pub head : String → Result (Option String)
  pub work : String → Work

-- `Compare`, on the content at HEAD and in the working tree, where there is one
unfoldable pub compare : Option String → Option String → String
compare head none = ""
compare none (some work) = "untracked"
compare (some head) (some work) = if head == work then "" else "modified since HEAD"

abbrev pub op : {A : Type 0} → Result A → Result A
op (ok a) = ok a
op (err e) = err (wrap "execconfig.Check" e)

abbrev pub against : Option String → Work → Result String
against head absent = ok (compare head none)
against head (present text) = ok (compare head (some text))
against head (unreadable e) = err (wrap "execconfig.Check" e)

abbrev pub added : Drift → List Drift → List Drift
added d ds = if d.reason == "" then ds else d ∷ ds

abbrev pub by_path : Drift → Drift → Bool
by_path a b = str_lt a.path b.path

abbrev pub sorted : Result (List Drift) → Result (List Drift)
sorted (err e) = err e
sorted (ok drift) = ok (sort_by by_path drift)

abbrev part : Drift → String
part d = concat (d.path ∷ " (" ∷ d.reason ∷ ")" ∷ [])

-- `refusal`
unfoldable pub refusal : List Drift → Option Error
refusal [] = none
refusal (d ∷ ds) = some (
    coded conflict (
      concat (
        "refusing to run uncommitted executable config: "
        ∷ join ", " (map part (d ∷ ds))
        ∷ "; review and commit it, then retry"
        ∷ [])))

abbrev pub refused : Result (List Drift) → Option Error
refused (err e) = some e
refused (ok drift) = refusal drift

module _ (tree : Tree) where
  -- The reason of one path, in the loop of `check`
  unfoldable pub reason_of : String → Result String
  reason_of path = op (tree.head path) >>= λ head. against head (tree.work path)

  -- The loop of `check`
  unfoldable pub check_from : List String → Result (List Drift)
  check_from [] = ok []
  check_from (path ∷ paths) = reason_of path >>= λ reason.
      check_from paths >>= λ drift. ok (added (record { path = path; reason = reason }) drift)

  -- `Check`
  unfoldable pub check : List String → Result (List Drift)
  check paths = if tree.is_repo then sorted (check_from paths) else ok []

  -- `Require`
  unfoldable pub require : List String → Option Error
  require paths = refused (check paths)

  -- `RequirePrompts`
  unfoldable pub require_prompts : Result (List String) → Option Error
  require_prompts (err e) = some (wrap "execconfig.RequirePrompts" e)
  require_prompts (ok bases) = require (map (λ base. concat (".adh/prompts/" ∷ base ∷ [])) bases)
