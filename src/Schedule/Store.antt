-- ===== src/Schedule/Store.antt =====
-- internal/schedule/{schedule,parse,store}.go: specs, jobs, and the statements on their table.
use agentic_dev_harness.Shared.{
  ℕ, Bool, true, not, ◌&&◌, Option, none, some, List, [], ◌∷◌, ◌++◌, String, ◌==◌, if◌then◌else◌,
  concat, any, filter, ltb, leb, str_lt, sort_by, cut_prefix, trim_space,
}
use agentic_dev_harness.Adh.Error.{Error}

-- What `errors.Is` finds in an error of this package, with its detail, or the error of a statement;
-- `of_job` is the wrapping of an error by `Tick`, with the job's name.
pub data Fault : Type 0 where
  not_found conflict invalid_cron invalid_spec : String → Fault
  failed : String → Error → Fault
  of_job : String → Fault → Fault

pub data Result (A : Type 0) : Type 0 where
  ok : A → Result A
  err : Fault → Result A

-- `RunStatus`; `unset` is the empty text.
pub data RunStatus : Type 0 where
  unset run_ok run_fail : RunStatus

-- `Job`
pub record Job : Type 0 where
  pub name : String
  pub cron : String
  pub command : List String
  pub next_fire : ℕ
  pub last_run : ℕ
  pub last_status : RunStatus
  pub created_at : ℕ
  pub updated_at : ℕ

-- `JobSpec`
pub record JobSpec : Type 0 where
  pub name : String
  pub cron : String
  pub command : List String

-- What is used of the cron library and of `time.ParseDuration`, with the texts of their errors.
pub record Cron : Type 1 where
  pub Schedule : Type 0
  pub Duration : Type 0
  pub parse : String → Option Schedule
  pub parse_error : String → String
  pub next : Schedule → ℕ → ℕ
  pub duration : String → Option Duration
  pub duration_error : String → String
  pub is_positive : Duration → Bool
  pub duration_text : Duration → String

module _ (library : Cron) where
  open library use {
    Schedule, Duration, parse, parse_error, next, duration, duration_error, is_positive,
    duration_text,
  }

  abbrev parsed : String → Result Schedule
  parsed expr = elim (parse expr) [ none ↦ err (invalid_cron (parse_error expr)) | some s ↦ ok s ]

  abbrev checked : Option Duration → String → String → Result Schedule
  checked none rest expr =
      err (invalid_cron (concat ("@every duration: " ∷ duration_error rest ∷ [])))
  checked (some d) rest expr =
      if is_positive d
      then parsed expr
      else err
          (invalid_cron (concat ("@every duration must be positive: got " ∷ duration_text d ∷ [])))

  abbrev every : Option String → String → Result Schedule
  every none expr = parsed expr
  every (some rest) expr = checked (duration (trim_space rest)) (trim_space rest) expr

  -- `ParseCron`
  unfoldable pub parse_cron : String → Result Schedule
  unfolding trim_space cut_prefix
  parse_cron raw =
      let expr = trim_space raw in
      if expr == ""
      then err (invalid_cron "empty expression")
      else every (cut_prefix "@every " expr) expr

  abbrev pub instant : ℕ → Result Schedule → ℕ
  instant now (ok s) = next s now
  instant now (err e) = 0

  -- `NextFire`
  unfoldable pub next_fire_after : String → ℕ → ℕ
  next_fire_after expr now = instant now (parse_cron expr)

  abbrev no_command : List String → Bool
  no_command [] = true
  no_command (word ∷ words) = word == ""

  -- `Validate`
  unfoldable pub validate : JobSpec → Option Fault
  unfolding parse_cron
  validate spec =
      if spec.name == ""
      then some (invalid_spec "name required")
      else if no_command spec.command
      then some (invalid_spec "command required")
      else elim (parse_cron spec.cron) [ ok s ↦ none | err e ↦ some e ]

-- The statements on the table `jobs`, and the error of each that fails.
pub data Statement : Type 0 where
  insert_job select_job select_jobs select_due select_next update_next update_run delete_job :
      Statement

abbrev pub Db : Type 0
Db = Statement → Option Error

abbrev pub named : String → Job → Bool
named name job = job.name == name

-- `UPDATE jobs SET ... WHERE name = ?`
abbrev pub update : String → (Job → Job) → List Job → List Job
update name f [] = []
update name f (job ∷ jobs) = (if named name job then f job else job) ∷ update name f jobs

abbrev pub is_due : ℕ → Job → Bool
is_due now job = ltb 0 job.next_fire && leb job.next_fire now

abbrev pub sooner : Job → Job → Bool
sooner a b = ltb a.next_fire b.next_fire

module _ (db : Db) where
  -- `Due`
  unfoldable pub due : ℕ → List Job → Result (List Job)
  due now jobs = elim (db select_due) [
    | some e ↦ err (failed "schedule: due" e)
    | none ↦ ok (sort_by sooner (filter (is_due now) jobs))
  ]

  -- `List`
  unfoldable pub list_jobs : List Job → Result (List Job)
  list_jobs jobs = elim (db select_jobs) [
    | some e ↦ err (failed "schedule: list" e)
    | none ↦ ok (sort_by (λ a b. str_lt a.name b.name) jobs)
  ]

  abbrev soonest : List Job → ℕ
  soonest [] = 0
  soonest (job ∷ jobs) = job.next_fire

  -- `SoonestDeadline`
  unfoldable pub soonest_deadline : ℕ → List Job → Result ℕ
  soonest_deadline now jobs = elim (db select_next) [
    | some e ↦ err (failed "schedule: soonest deadline" e)
    | none ↦ ok (soonest (sort_by sooner (filter (λ j. ltb now j.next_fire) jobs)))
  ]

  -- `AdvanceNextFire`, and the table after it
  unfoldable pub advance_next_fire : String → ℕ → List Job → Option Fault × List Job
  advance_next_fire name next jobs = elim (db update_next) [
    | some e ↦ (some (failed "schedule: advance next_fire" e), jobs)
    | none ↦
        if any (named name) jobs
        then (none, update name (λ j. record j { next_fire = next }) jobs)
        else (some (not_found name), jobs)
  ]

  -- `MarkRan`
  unfoldable pub mark_ran : String → RunStatus → ℕ → List Job → Option Fault × List Job
  mark_ran name status at jobs = elim (db update_run) [
    | some e ↦ (some (failed "schedule: mark ran" e), jobs)
    | none ↦ (
      none,
      update name (λ j. record j { last_run = at; last_status = status; updated_at = at }) jobs,
    )
  ]

  -- `Remove`
  unfoldable pub remove : String → List Job → Option Fault × List Job
  remove name jobs = elim (db delete_job) [
    | some e ↦ (some (failed "schedule: remove" e), jobs)
    | none ↦
        if any (named name) jobs
        then (none, filter (λ j. not (named name j)) jobs)
        else (some (not_found name), jobs)
  ]

  -- `job`, on a name that was just inserted
  abbrev read_back : Option Error → Job → Result Job
  read_back (some e) job = err (failed "schedule: scan job" e)
  read_back none job = ok job

  abbrev inserted : Option Error → Job → List Job → Result Job × List Job
  inserted (some e) job jobs = (err (failed "schedule: insert job" e), jobs)
  inserted none job jobs =
      if any (named job.name) jobs
      then (err (conflict job.name), jobs)
      else (read_back (db select_job) job, jobs ++ job ∷ [])

  -- `Add`
  unfoldable pub add_job : Cron → JobSpec → ℕ → List Job → Result Job × List Job
  unfolding validate next_fire_after
  add_job library spec now jobs = elim (validate library spec) [
    | some e ↦ (err e, jobs)
    | none ↦
        inserted (db insert_job)
          (record {
            name = spec.name;
            cron = spec.cron;
            command = spec.command;
            next_fire = next_fire_after library spec.cron now;
            last_run = 0;
            last_status = unset;
            created_at = now;
            updated_at = now;
          })
          jobs
  ]
