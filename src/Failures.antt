-- ===== src/Failures.antt =====
-- internal/failures: the logs that a disposed arc leaves in the repository. The files are held
-- decoded; `Disk` says which of them cannot be read or written, and with which error.
pub mod Records
use mathlib.Core.Path.{subst}
use agentic_dev_harness.Shared.{
  ◌≡◌, Bool, Option, none, some, List, [], ◌∷◌, ◌++◌, String, if◌then◌else◌, is_empty,
}
use agentic_dev_harness.Adh.Error.{Error, Result, ok, err, wrap}
use agentic_dev_harness.Critic.Precision.{PrecisionEntry, is_blank}

pub record FailureRecord : Type 0 where
  pub class : String
  pub stratum : String
  pub labels : List String
  pub paths : List String
  pub root_cause : String

abbrev pub root_ungrounded : String
root_ungrounded = "ungrounded"

abbrev pub root_grounded_miss : String
root_grounded_miss = "grounded-miss"

-- `ClassifyRootCause`
unfoldable pub classify_root_cause : Bool → String
classify_root_cause grounded = if grounded then root_grounded_miss else root_ungrounded

pub record Logs : Type 0 where
  pub records : List FailureRecord
  pub precision : List PrecisionEntry
  pub candidates : List String
  pub registry : List String

pub data LogFile : Type 0 where
  records_file precision_file candidates_file registry_file : LogFile

pub record Disk : Type 0 where
  pub read_fault : LogFile → Option Error
  pub write_fault : LogFile → Option Error

abbrev pub healthy : Disk
healthy = record { read_fault = λ f. none; write_fault = λ f. none }

-- An action on the logs that may fail. What was written before a failure stays written.
abbrev pub Exec {ℓ} : Type ℓ → Type ℓ
Exec A = Logs → Result A × Logs

abbrev pub continue {ℓ κ} :
    {A : Type ℓ} {B : Type κ} → Result A → (A → Logs → Result B × Logs) → Logs → Result B × Logs
continue (ok a) f logs = f a logs
continue (err e) f logs = (err e, logs)

infixl 5 ◌>>=◌ ◌>>◌
unfoldable pub ◌>>=◌ : {A B : Type 0} → Exec A → (A → Exec B) → Exec B
◌>>=◌ m f logs = let (r, logs') = m logs in continue r f logs'

abbrev pub ◌>>◌ : {B : Type 0} → Exec (Unit {0}) → Exec B → Exec B
m >> n = m >>= λ _. n

abbrev pub pure : {A : Type 0} → A → Exec A
pure a logs = (ok a, logs)

-- What an action returns, if it succeeds, has the property `P`.
pub record Ensures {A : Type 0} (P : A → Type 0) (m : Exec A) : Type 0 where
  pub at : (logs : Logs) (a : A) (logs' : Logs) → m logs ≡ (ok a, logs') → P a

continue_ok :
    {A B : Type 0} {P : B → Type 0} (r : Result A) (f : A → Exec B)
    → ((a : A) → Ensures P (f a))
    → (logs : Logs) (b : B) (logs' : Logs) → continue r f logs ≡ (ok b, logs')
    → P b
continue_ok (ok a) f each logs b logs' h = (each a).at logs b logs' h
continue_ok (err e) f each logs b logs' h = cc

pub Ensures->>= :
    {A B : Type 0} {P : B → Type 0} (m : Exec A) (f : A → Exec B)
    → ((a : A) → Ensures P (f a))
    → Ensures P (m >>= f)
unfolding ◌>>=◌
Ensures->>= {P} m f each = record {
  at = λ logs b logs' h. let (r, mid) = m logs in continue_ok {P = P} r f each mid b logs' h;
}

pub Ensures-pure : {A : Type 0} {P : A → Type 0} (a : A) → P a → Ensures P (pure a)
Ensures-pure {P} a p = record { at = λ logs b logs' h. subst P (cc) p }

-- `&adh.Error{Op: op, Err: err}` around an action's error
abbrev pub wrapped {ℓ} : {A : Type ℓ} → String → Result A → Result A
wrapped op (ok a) = ok a
wrapped op (err e) = err (wrap op e)

abbrev pub under : {A : Type 0} → String → Exec A → Exec A
under op m logs = let (r, logs') = m logs in (wrapped op r, logs')

-- Reading the old content, then writing the new: the two places where an append may fail.
abbrev guarded :
    Option Error → Option Error → String → String → Logs → Logs → Result (Unit {0}) × Logs
guarded none none load_op op logs logs' = (ok tt, logs')
guarded none (some e) load_op op logs logs' = (err (wrap op e), logs)
guarded (some e) w load_op op logs logs' = (err (wrap load_op e), logs)

module _ (disk : Disk) where
  -- `AppendRecords` on the records file
  unfoldable pub append_records : List FailureRecord → Exec (Unit {0})
  append_records recs logs =
      if is_empty recs
      then (ok tt, logs)
      else guarded (disk.read_fault records_file) (disk.write_fault records_file)
          "failures.LoadRecords" "failures.AppendRecords" logs
          (record logs { records = logs.records ++ recs })

  -- `Append` on the lesson candidates
  unfoldable pub append_candidates : List String → Exec (Unit {0})
  append_candidates notes logs =
      if is_empty notes
      then (ok tt, logs)
      else guarded (disk.read_fault candidates_file) (disk.write_fault candidates_file)
          "failures.Load" "failures.Append" logs
          (record logs { candidates = logs.candidates ++ notes })

  -- `Append` on the failure registry
  unfoldable pub append_registry : List String → Exec (Unit {0})
  append_registry notes logs =
      if is_empty notes
      then (ok tt, logs)
      else guarded (disk.read_fault registry_file) (disk.write_fault registry_file) "failures.Load"
          "failures.Append" logs (record logs { registry = logs.registry ++ notes })

  -- `critic.AppendPrecision`, which writes one line and reads nothing
  unfoldable pub append_precision : PrecisionEntry → Exec (Unit {0})
  unfolding is_blank
  append_precision entry logs =
      if is_blank entry
      then (ok tt, logs)
      else guarded none (disk.write_fault precision_file) "critic.AppendPrecision"
          "critic.AppendPrecision" logs (record logs { precision = logs.precision ++ entry ∷ [] })
