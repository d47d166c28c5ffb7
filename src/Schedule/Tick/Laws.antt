-- ===== src/Schedule/Tick/Laws.antt =====
-- What a tick leaves behind, where every statement on the table succeeds.
use agentic_dev_harness.Shared.{
  ℕ, ◌<◌, ◌⊎◌, inl, inr, ◌≡◌, refl, ap, ◌∙◌, true, false, none, List, [], ◌∷◌, map, String, ◌==◌,
  eq_iff, arith, filter, any, All, All-of, All-sort_by, All-weaken, All-filter, Memᴰ-filter,
  Memᴰ-sort_by, Memᴰ-any, Bool-cases, Option, sort_by,
}
use agentic_dev_harness.Adh.Error.{Error}
use agentic_dev_harness.Schedule.Store.{
  ok, err, Job, Cron, Db, Statement, select_due, update_next, update_run, RunStatus, named, update,
  is_due, sooner, due, mark_ran, advance_next_fire, parse_cron, next_fire_after, instant, Result,
}
use agentic_dev_harness.Schedule.Tick.{Fired, status_of, with_first, fire, tick}

-- Each job that is due is named among the jobs that are still to be fired.
Covered : ℕ → List Job → List Job → Type 0
Covered now rest = All (λ j. is_due now j ≡ true → any (λ r. r.name == j.name) rest ≡ true)

any-update :
    (name asked : String) (f : Job → Job) (jobs : List Job)
    → ((j : Job) → (f j).name ≡ j.name)
    → any (named asked) (update name f jobs) ≡ any (named asked) jobs
any-update name asked f [] h = refl
any-update name asked f (j ∷ jobs) h =
    let ih = any-update name asked f jobs h in
    elim (Bool-cases (j.name == name)) [
      | inl e ↦ rw e (rw (h j) (rw ih refl))
      | inr e ↦ rw e (rw ih refl)
    ]

All-update :
    (P Q : Job → Type 0) (name : String) (f : Job → Job) (jobs : List Job)
    → ((j : Job) → named name j ≡ true → P j → Q (f j))
    → ((j : Job) → named name j ≡ false → P j → Q j)
    → All P jobs
    → All Q (update name f jobs)
All-update P Q name f [] hit miss h = tt
All-update P Q name f (j ∷ jobs) hit miss h =
    let ih = All-update P Q name f jobs hit miss h.1 in
    elim (Bool-cases (j.name == name)) [
      | inl e ↦ rw e (hit j e h.0, ih)
      | inr e ↦ rw e (miss j e h.0, ih)
    ]

filter-Covered : (now : ℕ) (jobs : List Job) → Covered now [] jobs → filter (is_due now) jobs ≡ []
unfolding Covered
filter-Covered now [] h = refl
filter-Covered now (j ∷ jobs) h =
    let ih = filter-Covered now jobs h.1 in
    elim (Bool-cases (is_due now j)) [ inl e ↦ absurd (ground (arith, h.0 e)) | inr e ↦ rw e ih ]

mark_ran-update :
    (db : Db) (name : String) (status : RunStatus) (at : ℕ) (jobs : List Job)
    → db update_run ≡ none
    → mark_ran db name status at jobs ≡ (
      none,
      update name (λ j. record j { last_run = at; last_status = status; updated_at = at }) jobs,
    )
unfolding mark_ran
mark_ran-update db name status at jobs h = rw (h, mark_ran) refl

advance_next_fire-update :
    (db : Db) (name : String) (next : ℕ) (jobs : List Job)
    → db update_next ≡ none
    → any (named name) jobs ≡ true
    → advance_next_fire db name next jobs
      ≡ (none, update name (λ j. record j { next_fire = next }) jobs)
unfolding advance_next_fire
advance_next_fire-update db name next jobs h present = rw (h, advance_next_fire) (rw present refl)

module _ (library : Cron) (db : Db) (runner : List String → Option Error) (now : ℕ) where
  abbrev pub fired_of : Job → Fired
  fired_of job = record { name = job.name; status = status_of (runner job.command) }

  -- A schedule gives no instant, or one after the instant it is asked about.
  abbrev pub IsLater : Type 0
  IsLater = (s : library.Schedule) → (library.next s now ≡ 0) ⊎ (now < library.next s now)

  instant-is_due :
      (parsed : Result library.Schedule) (job : Job)
      → IsLater
      → is_due now (record job { next_fire = instant library now parsed }) ≡ false
  instant-is_due (ok s) job later = elim (later s) [ inl e ↦ rw e refl | inr e ↦ ground (arith, e) ]
  instant-is_due (err e) job later = refl

  next_fire_after-is_due :
      (expr : String) (job : Job)
      → IsLater
      → is_due now (record job { next_fire = next_fire_after library expr now }) ≡ false
  unfolding next_fire_after
  next_fire_after-is_due expr job = instant-is_due (parse_cron library expr) job

  abbrev mark : Job → Job → Job
  mark job j = record j {
    last_run = now;
    last_status = status_of (runner job.command);
    updated_at = now;
  }

  abbrev advance : Job → Job → Job
  advance job j = record j { next_fire = next_fire_after library job.cron now }

  -- The table after a job has fired.
  abbrev after : Job → List Job → List Job
  after job jobs = update job.name (advance job) (update job.name (mark job) jobs)

  fire-after :
      (job : Job) (rest jobs : List Job)
      → ((s : Statement) → db s ≡ none)
      → any (named job.name) jobs ≡ true
      → fire library db runner now (job ∷ rest) jobs
        ≡ with_first library db runner now
            (fired_of job)
            (fire library db runner now rest (after job jobs))
  unfolding fire
  fire-after job rest jobs healthy present =
      rw
        (mark_ran-update db job.name (status_of (runner job.command)) now jobs (healthy update_run))
        (rw
          (advance_next_fire-update db job.name (next_fire_after library job.cron now)
            (update job.name (mark job) jobs) (healthy update_next)
            (any-update job.name job.name (mark job) jobs (λ j. refl) ∙ present))
          refl)

  any-after :
      (job : Job) (asked : String) (jobs : List Job)
      → any (named asked) (after job jobs) ≡ any (named asked) jobs
  any-after job asked jobs =
      any-update job.name asked (advance job) (update job.name (mark job) jobs) (λ j. refl)
      ∙ any-update job.name asked (mark job) jobs (λ j. refl)

  after-Covered :
      (job : Job) (rest jobs : List Job)
      → IsLater
      → Covered now (job ∷ rest) jobs
      → Covered now rest (after job jobs)
  unfolding Covered
  after-Covered job rest jobs later h =
      All-update (λ j. is_due now j ≡ true → any (λ r. r.name == j.name) (job ∷ rest) ≡ true)
        (λ j. is_due now j ≡ true → any (λ r. r.name == j.name) rest ≡ true) job.name (advance job)
        (update job.name (mark job) jobs)
        (λ j e c d. absurd (ground (arith, d, next_fire_after-is_due job.cron j later)))
        (λ j e c d. ground (arith, e, c d, eq_iff j.name job.name, eq_iff job.name j.name))
        (All-update (λ j. is_due now j ≡ true → any (λ r. r.name == j.name) (job ∷ rest) ≡ true)
          (λ j. is_due now j ≡ true → any (λ r. r.name == j.name) (job ∷ rest) ≡ true) job.name
          (mark job) jobs (λ j e c. c) (λ j e c. c) h)

  fire-fired :
      (rest jobs : List Job)
      → ((s : Statement) → db s ≡ none)
      → IsLater
      → All (λ r. any (named r.name) jobs ≡ true) rest
      → Covered now rest jobs
      → ((fire library db runner now rest jobs).fault ≡ none)
        × ((fire library db runner now rest jobs).fired ≡ map fired_of rest)
        × (filter (is_due now) (fire library db runner now rest jobs).jobs ≡ [])
  unfolding fire
  fire-fired [] jobs healthy later present covered = (refl, refl, filter-Covered now jobs covered)
  fire-fired (job ∷ rest) jobs healthy later present covered =
      let still =
        All-weaken (λ r. any (named r.name) jobs ≡ true)
          (λ r. any (named r.name) (after job jobs) ≡ true) (λ r h. any-after job r.name jobs ∙ h)
          rest present.1 in
      let (ended, fired, quiet) =
        fire-fired rest (after job jobs) healthy later still
          (after-Covered job rest jobs later covered) in
      rw (fire-after job rest jobs healthy present.0)
        (ended, ap (λ fs. fired_of job ∷ fs) fired, quiet)

  -- A tick whose statements succeed fires each job that is due, in the order of their next fires,
  -- whatever the runs of the others return, and afterwards no job is due at its instant, provided
  -- that a schedule asked for its next instant gives none or a later one.
  pub tick_fires :
      (jobs : List Job)
      → ((s : Statement) → db s ≡ none)
      → IsLater
      → ((tick library db runner now jobs).fault ≡ none)
        × ((tick library db runner now jobs).fired
            ≡ map fired_of (sort_by sooner (filter (is_due now) jobs)))
        × (filter (is_due now) (tick library db runner now jobs).jobs ≡ [])
  unfolding tick due Covered
  tick_fires jobs healthy later =
      rw (healthy select_due, due)
        (fire-fired (sort_by sooner (filter (is_due now) jobs)) jobs healthy later
          (All-sort_by sooner (λ r. any (named r.name) jobs ≡ true) (filter (is_due now) jobs)
            (All-filter (λ r. any (named r.name) jobs ≡ true) (is_due now) jobs
              (All-of (λ r. any (named r.name) jobs ≡ true) jobs
                (λ r m. Memᴰ-any (named r.name) jobs r m ((eq_iff r.name r.name).1 refl)))))
          (All-of
            (λ j.
              is_due now j ≡ true
              → any (λ r. r.name == j.name) (sort_by sooner (filter (is_due now) jobs)) ≡ true)
            jobs
            (λ j m d.
              Memᴰ-any (λ r. r.name == j.name) (sort_by sooner (filter (is_due now) jobs)) j
                (Memᴰ-sort_by sooner (filter (is_due now) jobs)
                  ((Memᴰ-filter (is_due now) jobs j).1 (m, d)))
                ((eq_iff j.name j.name).1 refl))))
