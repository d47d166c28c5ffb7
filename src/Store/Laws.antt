-- ===== src/Store/Laws.antt =====
-- The workspace as a map from files to arcs.
use agentic_dev_harness.Shared.{
  ◌≡◌, refl, none, some, String, ◌==◌, if◌then◌else◌, lookup, insert, lookup-insert, arith,
}
use agentic_dev_harness.Adh.Error.{Error, ok, err, error_code, conflict}
use agentic_dev_harness.Adh.Arc.{Arc}
use agentic_dev_harness.Store.{Files, Store, path, create, save}

module _ {U : Type 0} (files : Files) where
  -- A write that succeeds puts the arc into its file.
  pub save-insert :
      (arc : Arc U) (store store' : Store U)
      → save files arc store ≡ ok store'
      → store' ≡ insert (path arc.id) arc store
  unfolding save
  save-insert arc store store' h = ground arith

  -- After a save that succeeds, the workspace holds the saved arc in the file of its id, and in every
  -- other file what it held before.
  pub lookup-save :
      (arc : Arc U) (store store' : Store U) (file : String)
      → save files arc store ≡ ok store'
      → lookup file store' ≡ (if path arc.id == file then some arc else lookup file store)
  lookup-save arc store store' file h =
      rw (save-insert arc store store' h) (lookup-insert (path arc.id) file arc store)

  -- Creating an arc never overwrites one: where its file is there it is refused as a conflict, and
  -- where it succeeds the file was absent and every other file is as it was.
  create_fresh :
      (arc : Arc U) (store : Store U)
      → ((old : Arc U)
          → lookup (path arc.id) store ≡ some old
          → (e : Error) × (create files arc store ≡ err e) × (error_code e ≡ conflict))
        × ((store' : Store U)
            → create files arc store ≡ ok store'
            → (lookup (path arc.id) store ≡ none)
              × ((file : String)
                  → lookup file store'
                    ≡ (if path arc.id == file then some arc else lookup file store)))
  unfolding create error_code
  create_fresh arc store = (
    λ old h. rw h (_, refl, refl),
    λ store' h.
        let e : store' ≡ insert (path arc.id) arc store = ground arith in
        (ground arith, λ file. rw e (lookup-insert (path arc.id) file arc store)),
  )
