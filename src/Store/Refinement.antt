-- ===== src/Store/Refinement.antt =====
-- What the arc workspace promises its callers, as a function from files to arcs: replaying any calls
-- on the directory gives the answers of the function, the errors of the file system included.
use agentic_dev_harness.Shared.{
  ◌≡◌, Option, none, some, List, [], ◌∷◌, String, ◌==◌, if◌then◌else◌, concat, lookup,
}
use agentic_dev_harness.Adh.Error.{Error, Result, ok, err, coded, wrap, conflict, not_found}
use agentic_dev_harness.Adh.Arc.{Arc}
use agentic_dev_harness.Store.{Files, Store, path, create, save, get}

-- A call of the workspace.
pub data Call (U : Type 0) : Type 0 where
  creates saves : Arc U → Call U
  gets : String → Call U

-- What a call answers.
pub data Answer (U : Type 0) : Type 0 where
  written : Answer U
  read : Arc U → Answer U
  refused : Error → Answer U

abbrev pub ArcMap : Type 0 → Type 0
ArcMap U = String → Option (Arc U)

-- The first of the two errors that a write may meet: of the directory, and of the file.
abbrev write_error : Option Error → Option Error → Option Error
write_error none of_file = of_file
write_error (some e) of_file = some e

module _ {U : Type 0} (files : Files) where
  -- The map with an arc in the file of its id.
  abbrev pub put : Arc U → ArcMap U → ArcMap U
  put arc m file = if path arc.id == file then some arc else m file

  abbrev put_unless : String → Arc U → ArcMap U → Option Error → Answer U × ArcMap U
  put_unless op arc m none = (written, put arc m)
  put_unless op arc m (some e) = (refused (wrap op e), m)

  -- A write succeeds, or is refused with the file system's error and changes nothing.
  abbrev spec_write : String → Arc U → ArcMap U → Answer U × ArcMap U
  spec_write op arc m =
      put_unless op arc m (write_error files.mkdir_fault (files.write_fault (path arc.id)))

  abbrev told : String → Option Error → Option (Arc U) → Answer U
  told id fault none = refused (coded not_found (concat ("no such arc: " ∷ id ∷ [])))
  told id none (some arc) = read arc
  told id (some e) (some arc) = refused (wrap "state.Store.Get" e)

  abbrev make : Arc U → ArcMap U → Option (Arc U) → Answer U × ArcMap U
  make arc m none = spec_write "state.Store.Create" arc m
  make arc m (some old) =
      (refused (coded conflict (concat ("arc already exists: " ∷ arc.id ∷ []))), m)

  -- One call, as promised: an arc is created only where its file is absent, saved in any case, and
  -- read as it was last written.
  abbrev pub spec_call : Call U → ArcMap U → Answer U × ArcMap U
  spec_call (creates arc) m = make arc m (m (path arc.id))
  spec_call (saves arc) m = spec_write "state.Store.Save" arc m
  spec_call (gets id) m = (told id (files.read_fault (path id)) (m (path id)), m)

  abbrev pub spec_replay : List (Call U) → ArcMap U → List (Answer U)
  spec_replay [] m = []
  spec_replay (c ∷ cs) m = let (answer, m') = spec_call c m in answer ∷ spec_replay cs m'

  abbrev wrote : Store U → Result (Store U) → Answer U × Store U
  wrote store (ok store') = (written, store')
  wrote store (err e) = (refused e, store)

  abbrev answered : Result (Arc U) → Answer U
  answered (ok arc) = read arc
  answered (err e) = refused e

  -- One call of the code.
  abbrev pub call : Call U → Store U → Answer U × Store U
  call (creates arc) store = wrote store (create files arc store)
  call (saves arc) store = wrote store (save files arc store)
  call (gets id) store = (answered (get files id store), store)

  abbrev pub replay : List (Call U) → Store U → List (Answer U)
  replay [] store = []
  replay (c ∷ cs) store = let (answer, store') = call c store in answer ∷ replay cs store'

  -- The map that a directory stands for.
  abbrev pub IsView : ArcMap U → Store U → Type 0
  IsView m store = (file : String) → m file ≡ lookup file store

  -- A call of the code answers as promised and keeps the view.
  record Refines (actual : Answer U × Store U) (promised : Answer U × ArcMap U) : Type 0 where
    answer : actual.0 ≡ promised.0
    view : IsView promised.1 actual.1
