-- ===== src/Commands/World.antt =====
-- What the commands change, and how one ends.
use agentic_dev_harness.Shared.{◌≡◌, refl, ◌⊎◌, inl, inr, arith, ℕ, Bool, Option, List, String}
use agentic_dev_harness.Adh.Error.{Error, Result, ok, err, context}
use agentic_dev_harness.Adh.Arc.{Arc}
use agentic_dev_harness.Failures.{Logs, Disk}
use agentic_dev_harness.Store.{Files, Store, get, save}

-- internal/metrics: what a closed arc cost
pub record MetricRecord : Type 0 where
  pub arc : String
  pub attention_minutes : ℕ
  pub compute_tokens : ℕ
  pub accepted : Bool

pub record World (U : Type 0) : Type 0 where
  pub store : Store U
  pub logs : Logs
  pub metrics : List MetricRecord

-- The errors of the file system under a command.
pub record Machine : Type 0 where
  pub files : Files
  pub disk : Disk
  pub metrics_fault : Option Error

-- How a command ends: nil, an error, an exit code, or one of the usage errors of cmd/root.
pub data Outcome : Type 0 where
  done : Outcome
  error : Error → Outcome
  exit : ℕ → Outcome
  missing_operand : Outcome
  dry_run_unsupported : Outcome

-- A command: from a world to its end and the world behind it.
abbrev pub Command : Type 0 → Type 0
Command U = World U → Outcome × World U

module _ {U : Type 0} (machine : Machine) where
  -- `arc, err := store.Get(id)`, with the error wrapped by the command's name
  abbrev pub with_arc : String → String → (Arc U → Command U) → Command U
  with_arc name id k w = elim (get machine.files id w.store) [
    | ok arc ↦ k arc w
    | err e ↦ (error (context name e), w)
  ]

  -- `store.Save(&arc)`, with the error wrapped by the command's name
  abbrev pub saving : String → Arc U → Command U → Command U
  saving name arc k w = elim (save machine.files arc w.store) [
    | ok store ↦ k (record w { store = store })
    | err e ↦ (error (context name e), w)
  ]

  abbrev pub finished : Command U
  finished w = (done, w)

  -- A command that begins by reading an arc either fails there and changes nothing, or goes on.
  pub with_arc_inv :
      (name id : String) (k : Arc U → Command U) (w w' : World U) (o : Outcome)
      → with_arc name id k w ≡ (o, w')
      → (w' ≡ w) ⊎ ((arc : Arc U) × (get machine.files id w.store ≡ ok arc) × (k arc w ≡ (o, w')))
  with_arc_inv name id k w w' o h = split (get machine.files id w.store) refl h
    where
      split :
          (r : Result (Arc U))
          → get machine.files id w.store ≡ r
          → elim r [ ok arc ↦ k arc w | err e ↦ (error (context name e), w) ] ≡ (o, w')
          → (w' ≡ w)
            ⊎ ((arc : Arc U) × (get machine.files id w.store ≡ ok arc) × (k arc w ≡ (o, w')))
      split (ok arc) e h = inr (arc, e, h)
      split (err e') e h = inl (ground arith)

  -- A command that ends by saving an arc either fails there and changes nothing, or goes on.
  pub saving_inv :
      (name : String) (arc : Arc U) (k : Command U) (w w' : World U) (o : Outcome)
      → saving name arc k w ≡ (o, w')
      → ((e : Error) × (o ≡ error e) × (w' ≡ w))
        ⊎ ((store : Store U) × (save machine.files arc w.store ≡ ok store)
            × (k (record w { store = store }) ≡ (o, w')))
  saving_inv name arc k w w' o h = split (save machine.files arc w.store) refl h
    where
      split :
          (r : Result (Store U))
          → save machine.files arc w.store ≡ r
          → elim r [
            | ok store ↦ k (record w { store = store })
            | err e ↦ (error (context name e), w)
          ]
            ≡ (o, w')
          → ((e : Error) × (o ≡ error e) × (w' ≡ w))
            ⊎ ((store : Store U) × (save machine.files arc w.store ≡ ok store)
                × (k (record w { store = store }) ≡ (o, w')))
      split (ok store) e h = inr (store, e, h)
      split (err e') e h = inl (context name e', ground arith, ground arith)
