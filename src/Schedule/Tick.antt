-- ===== src/Schedule/Tick.antt =====
-- internal/schedule/tick.go: firing what is due, and how long a daemon then sleeps.
pub mod Laws
use agentic_dev_harness.Shared.{
  ℕ, ◌-◌, Bool, true, false, Option, none, some, List, [], ◌∷◌, String, if◌then◌else◌, ltb, eqb,
}
use agentic_dev_harness.Adh.Error.{Error}
use agentic_dev_harness.Schedule.Store.{
  Fault, of_job, Result, ok, err, RunStatus, run_ok, run_fail, Job, Cron, Db, due, mark_ran,
  advance_next_fire, next_fire_after,
}

-- `Fired`
pub record Fired : Type 0 where
  pub name : String
  pub status : RunStatus

-- What a tick returns: the jobs that fired, the error that ended it, and the table after it.
pub record Ticked : Type 0 where
  pub fired : List Fired
  pub fault : Option Fault
  pub jobs : List Job

abbrev status_of : Option Error → RunStatus
status_of none = run_ok
status_of (some e) = run_fail

module _ (library : Cron) (db : Db) (runner : List String → Option Error) (now : ℕ) where
  abbrev pub with_first : Fired → Ticked → Ticked
  with_first f t = record t { fired = f ∷ t.fired }

  abbrev advanced : Option Fault → List Job → Fired → Ticked → Ticked
  advanced (some e) jobs f rest = record { fired = []; fault = some (of_job f.name e); jobs = jobs }
  advanced none jobs f rest = with_first f rest

  abbrev marked : Option Fault → List Job → Ticked → Ticked
  marked (some e) jobs rest = record { fired = []; fault = some e; jobs = jobs }
  marked none jobs rest = rest

  -- The loop of `Tick` over the jobs that are due. The runner changes no row of the table;
  -- jobs with one instant stand in the order of the table, which the statement leaves open.
  unfoldable pub fire : List Job → List Job → Ticked
  fire [] jobs = record { fired = []; fault = none; jobs = jobs }
  fire (job ∷ rest) jobs =
      let status = status_of (runner job.command) in
      let (mark_fault, ran) = mark_ran db job.name status now jobs in
      let (advance_fault, next) =
        advance_next_fire db job.name (next_fire_after library job.cron now) ran in
      marked mark_fault ran
        (advanced advance_fault next (record { name = job.name; status = status }) (fire rest next))

  abbrev over_due : Result (List Job) → List Job → Ticked
  over_due (err e) jobs = record { fired = []; fault = some e; jobs = jobs }
  over_due (ok jobs_due) jobs = fire jobs_due jobs

  -- `Tick`
  unfoldable pub tick : List Job → Ticked
  tick jobs = over_due (due db now jobs) jobs

-- `minSleep`, in nanoseconds
abbrev pub min_sleep : ℕ
min_sleep = 100000000

-- `NextSleep`. A time before `now` gives a negative difference in Go and 0 here; both are below
-- `min_sleep`.
unfoldable pub next_sleep : ℕ → ℕ → ℕ → ℕ
next_sleep next now poll =
    let sleep = if eqb next 0 then poll else if ltb (next - now) poll then next - now else poll in
    if ltb sleep min_sleep then min_sleep else sleep
