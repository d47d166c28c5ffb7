-- ===== src/Tools/Runs.antt =====
-- internal/toolrun and the exit codes of internal/shell: the log of the runs of tools. The log is a
-- file of JSON: `Log` is what reading it gives, and what is written is given back.
use agentic_dev_harness.Shared.{
  ℕ, Bool, not, ◌||◌, Option, none, some, List, [], ◌∷◌, ◌++◌, String, eqb,
}
use agentic_dev_harness.Adh.Error.{Error, wrap, Result, ok, err}

-- `Record`
pub record RunRecord : Type 0 where
  pub tool : String
  pub stratum : String
  pub ran : Bool
  pub failed : Bool
  pub duration_ms : ℕ
  pub unrunnable : String

pub data Log : Type 0 where
  absent : Log
  logged : List RunRecord → Log
  unreadable : Error → Log

-- `Load`
unfoldable pub load : Log → Result (List RunRecord)
load absent = ok []
load (logged records) = ok records
load (unreadable e) = err (wrap "toolrun.Load" e)

-- What fails on the way to the file: encoding, its directory, and the write.
pub data Step : Type 0 where
  encode make_directory write : Step

-- `NotRun`: 126 and 127 are the shell's codes for what it could not run; a
-- process that did not start has no code, whichever number stands for it.
unfoldable pub not_run : ℕ → Bool → Bool
not_run exit_code ran = not ran || eqb exit_code 126 || eqb exit_code 127

module _ (fault : Step → Option Error) where
  abbrev unless : Option Error → Log → Option Error × Log → Option Error × Log
  unless none log next = next
  unless (some e) log next = (some (wrap "toolrun.Append" e), log)

  abbrev extended : Log → List RunRecord → Result (List RunRecord) → Option Error × Log
  extended log records (err e) = (some e, log)
  extended log records (ok existing) = unless (fault encode) log (
      unless (fault make_directory) log
        (unless (fault write) log (none, logged (existing ++ records))))

  -- `Append`, and the log after it
  unfoldable pub append_runs : List RunRecord → Log → Option Error × Log
  append_runs [] log = (none, log)
  append_runs (record_ ∷ records) log = extended log (record_ ∷ records) (load log)

  -- `AppendOutcome`
  unfoldable pub append_outcome :
      String → String → Bool → Bool → ℕ → String → Log → Option Error × Log
  append_outcome tool stratum ran failed duration_ms unrunnable log =
      append_runs
        (record {
          tool = tool;
          stratum = stratum;
          ran = ran;
          failed = failed;
          duration_ms = duration_ms;
          unrunnable = unrunnable;
        }
          ∷ [])
        log
