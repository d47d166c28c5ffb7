-- ===== src/Examples/Timers.antt =====
-- The theorem about a tick, for one job that is due and fails and one that waits.
use agentic_dev_harness.Shared.{
  ℕ, suc, ◌+◌, ◌≡◌, refl, inr, true, none, some, Option, List, [], ◌∷◌, String, filter, map,
  sort_by, trim_space, cut_prefix, arith,
}
use agentic_dev_harness.Adh.Error.{Error, foreign}
use agentic_dev_harness.Schedule.Store.{
  Job, Cron, unset, run_fail, is_due, sooner, parse_cron, next_fire_after, due, mark_ran,
  advance_next_fire,
}
use agentic_dev_harness.Schedule.Tick.{fire, tick}
use agentic_dev_harness.Schedule.Tick.Laws.{fired_of, tick_fires}

abbrev hourly : Cron
hourly = record {
  Schedule = ℕ;
  Duration = ℕ;
  parse = λ expr. some 59;
  parse_error = λ expr. "";
  next = λ s now. now + suc s;
  duration = λ text. none;
  duration_error = λ text. "";
  is_positive = λ d. true;
  duration_text = λ d. "";
}

abbrev job_at : String → ℕ → Job
job_at name at = record {
  name = name;
  cron = "@hourly";
  command = "adh" ∷ "sleep" ∷ [];
  next_fire = at;
  last_run = 0;
  last_status = unset;
  created_at = 1;
  updated_at = 1;
}

abbrev timers : List Job
timers = job_at "late" 90 ∷ job_at "first" 40 ∷ []

abbrev failing : List String → Option Error
failing command = some (foreign "exit status 1")

tick_fires_example :
    ((tick hourly (λ s. none) failing 50 timers).fault ≡ none)
    × ((tick hourly (λ s. none) failing 50 timers).fired
        ≡ map (fired_of hourly (λ s. none) failing 50) (sort_by sooner (filter (is_due 50) timers)))
    × (filter (is_due 50) (tick hourly (λ s. none) failing 50 timers).jobs ≡ [])
tick_fires_example =
    tick_fires hourly (λ s. none) failing 50 timers (λ s. refl) (λ s. inr (omega arith))

-- One job is due, and it fails.
one_fired :
    (tick hourly (λ s. none) failing 50 timers).fired
    ≡ record { name = "first"; status = run_fail } ∷ []
unfolding tick fire due mark_ran advance_next_fire next_fire_after parse_cron trim_space cut_prefix
one_fired = refl
