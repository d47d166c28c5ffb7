-- ===== src/Store.antt =====
-- internal/state/state.go: the arc workspace, the directory `.adh/arcs` with one file for each arc.
-- The files are held decoded, under their cleaned paths, so that ids which name one file share it;
-- `Files` says what of the directory cannot be read or written.
pub mod Laws
pub mod Refinement
use Prim.Native.Char.{Char}
use Prim.Native.String
use agentic_dev_harness.Shared.{
  ℕ, ◌+◌, Bool, true, false, Option, none, some, List, [], ◌∷◌, String, ◌==◌, if◌then◌else◌, concat,
  length, decimal, str_lt, sort_by, lookup, insert, ltb, join_path, cut_prefix, contains,
}
use agentic_dev_harness.Adh.Error.{Error, Result, ok, err, ◌>>=◌, coded, wrap, conflict, not_found}
use agentic_dev_harness.Adh.Arc.{Arc}

-- The errors of the file system, by the file's path where a file is meant; a file that does not
-- decode counts as one that cannot be read.
pub record Files : Type 0 where
  pub dir_fault : Option Error
  pub mkdir_fault : Option Error
  pub read_fault : String → Option Error
  pub write_fault : String → Option Error

abbrev pub sound : Files
sound = record {
  dir_fault = none;
  mkdir_fault = none;
  read_fault = λ file. none;
  write_fault = λ file. none;
}

-- The arcs of the workspace by the path of their file.
abbrev pub Store : Type 0 → Type 0
Store U = List (String × Arc U)

abbrev pub unless {ℓ} : {A : Type ℓ} → String → Option Error → Result A → Result A
unless op none rest = rest
unless op (some e) rest = err (wrap op e)

abbrev is_some {ℓ} : {A : Type ℓ} → Option A → Bool
is_some none = false
is_some (some a) = true

-- `fmt.Sprintf("arc-%04d", n)`
arc_name : ℕ → String
arc_name n =
    let zeros : String =
      if ltb n 10 then "000" else if ltb n 100 then "00" else if ltb n 1000 then "0" else "" in
    concat ("arc-" ∷ zeros ∷ decimal n ∷ [])

-- `DefaultArcsDir`
abbrev pub default_arcs_dir : String
default_arcs_dir = ".adh/arcs"

-- `path`, in the default directory
unfoldable pub path : String → String
unfolding join_path
path id = join_path default_arcs_dir (concat (id ∷ ".json" ∷ []))

abbrev prepended : Char → Option String → Option String
prepended c none = none
prepended c (some s) = some (String.◌∷◌ c s)

-- A name without the extension `.json`, if it has it.
unfoldable pub without_json : String → Option String
without_json String.[] = none
without_json (String.◌∷◌ c s) =
    let rest = without_json s in if String.◌∷◌ c s == ".json" then some "" else prepended c rest

abbrev named_in_dir : Option String → Option String
named_in_dir none = none
named_in_dir (some name) = if contains name "/" then none else without_json name

-- The id that `List` makes of a file, if the file stands in the directory itself.
unfoldable pub listed_id : String → Option String
unfolding cut_prefix contains without_json
listed_id file = named_in_dir (cut_prefix ".adh/arcs/" file)

module _ {U : Type 0} (files : Files) where
  -- `write`, behind the `MkdirAll` of its callers
  abbrev pub write : String → Arc U → Store U → Result (Store U)
  write op arc store =
      unless op files.mkdir_fault
        (unless op (files.write_fault (path arc.id)) (ok (insert (path arc.id) arc store)))

  -- `Create`
  unfoldable pub create : Arc U → Store U → Result (Store U)
  create arc store =
      if is_some (lookup (path arc.id) store)
      then err (coded conflict (concat ("arc already exists: " ∷ arc.id ∷ [])))
      else write "state.Store.Create" arc store

  -- `Save`
  unfoldable pub save : Arc U → Store U → Result (Store U)
  save arc store = write "state.Store.Save" arc store

  abbrev pub found : String → Option Error → Option (Arc U) → Result (Arc U)
  found id fault none = err (coded not_found (concat ("no such arc: " ∷ id ∷ [])))
  found id fault (some arc) = unless "state.Store.Get" fault (ok arc)

  -- `Get`
  unfoldable pub get : String → Store U → Result (Arc U)
  get id store = found id (files.read_fault (path id)) (lookup (path id) store)

  abbrev pub listed : Option String → Store U → Result (List (Arc U)) → Result (List (Arc U))
  listed none store arcs = arcs
  listed (some id) store arcs = get id store >>= λ arc. arcs >>= λ rest. ok (arc ∷ rest)

  -- The loop of `List` over the directory's entries.
  unfoldable pub get_all : List (String × Arc U) → Store U → Result (List (Arc U))
  unfolding get listed_id
  get_all [] store = ok []
  get_all ((file, a) ∷ entries) store =
      let rest = get_all entries store in listed (listed_id file) store rest

  -- `List`
  unfoldable pub list : Store U → Result (List (Arc U))
  unfolding get_all
  list store =
      unless "state.Store.List" files.dir_fault
        (get_all store store >>= λ arcs. ok (sort_by (λ a b. str_lt a.id b.id) arcs))

  -- `NextID`
  unfoldable pub next_id : Store U → Result String
  unfolding list arc_name
  next_id store = list store >>= λ arcs. ok (arc_name (length arcs + 1))
