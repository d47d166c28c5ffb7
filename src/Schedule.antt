-- ===== src/Schedule.antt =====
-- internal/schedule: jobs that fire a command on a cadence. Times are nanoseconds, and 0 is the zero
-- time, as in the columns of the database. The database may fail at each statement, and what stands
-- behind cron expressions, durations and `%q` is a library; both are parameters.
pub mod Store
pub mod Tick
