-- ===== src/Lib.antt =====
-- Verification of the Agentic Development Harness (`adh`): a Go program that takes a change (an
-- arc) through the stages strategy, execution, critic, evaluation and ops, with a person at every
-- step that cannot be undone. A stage's prompt is answered by a model; what the critic finds is
-- adjudicated by running the repository's own checks; an arc closes only with verified proof.
--
-- The parts, the code that each models, and how they use one another:
--   Adh          internal/adh: stages, statuses, resolutions, findings, arcs (`Arc`), coded errors
--                (`Error` is the chain behind a Go error, `Result` a value with an error)
--   Authority    internal/authority: autonomy ladder, model-gate, human safety gate
--   Model        internal/model: the mock model and the relay, as the interface `Client`
--   Stages       internal/stage: `Request`, `Apply`, `Execute`, `AutoAdvances`
--   Critic       internal/critic: `Dispose` and the verdict, the critic's replies, and the logs of
--                coverage and precision; Grounding is critic.go, the working set of a stage
--   Context      internal/contextstore: trust, freshness, routing, areas, earned routes
--   Worktree     internal/worktree and `Executable` of internal/execconfig: what a turn touched
--   Execconfig   internal/execconfig: executable files must be what HEAD holds
--   Relay        internal/relay: parking a prompt (`Emit`) and applying a reply (`Resume`)
--   Metrics      internal/metrics: the classes of an arc's steps, and sums of the ledger
--   Judge        internal/judge: the rule judge
--   Lesson       internal/lesson: lessons distilled from failure notes, and their owners
--   Evidence     internal/evidence: the log of the cycle
--   Consolidate  internal/consolidate and internal/edit: the self-optimization cycle: Signals is what
--                is harvested, Modes what recurs and is proposed, Region the part of the artifact
--                that is edited, Scores and Plan the gate; Plan uses Judge, Verdict and Evidence
--   Verdict      internal/verdict: when a measured change is adopted, and the guard on splits
--   Oracle       internal/oracle: two resolvers of a match game, and the check of its rules
--   Float, Nfr   internal/nfr: specs of nonfunctional requirements; Float is Go's float64
--   Failures     internal/failures: the logs of the repository, actions on them that may fail, and
--                (Records) what the records say of a class
--   Evaluation   internal/evaluation: `Adjudicate`, `Decide`, `Apply`, the guards, the acceptance bar;
--                Repo is the adjudicator of a repository, which uses Tools, Nfr and Oracle
--   Store        internal/state: the directory of arcs, as an association list by cleaned path
--   Adr          internal/adr: decision records
--   Commands     cmd/approve, cmd/reject, cmd/closecmd, cmd/run, cmd/step: what the commands do to the
--                workspace, a `World` of the store, the logs and the ledger of metrics;
--                Relayed is `run --relay`; Lifecycle is the relation of workspaces that
--                these commands lead from and to
--   Schedule     internal/schedule: jobs in a table, and the tick that fires those that are due
--   Loops        internal/loop: the registry of maintenance loops
--   Tools        internal/toolreg and internal/toolrun: the registry of tools, what their commands
--                risk, and the log of their runs
--   Kpi          internal/kpi: indicators of units and tools, measured on the logs of Failures and
--                Tools, and the proposals they earn
--   Shared       lists, texts and association lists as the Go program uses them
--   Examples     an arc, a workspace, and the theorems applied to them
-- A function bears the name of the Go function in this library's spelling (`readyToClose` is
-- `ready_to_close`), and a comment above it gives the Go name.
--
-- Bounds. A Go int that counts is a natural number without an upper end; no value here comes near
-- 2 ^ 63. Texts are sequences of characters. The loop of `drive` in cmd/run has no bound of its own:
-- it runs on fuel, three passes for each rework of the budget and five more: enough, because a pass
-- that goes on brings the arc one stage nearer to ops or uses up a rework. All other loops are
-- structural recursion, but for two: the loop of `driveRelay` has two passes of fuel, enough because
-- Evaluation runs at most once, and the scan of a line as much as the line is long, enough because
-- each pass advances.
--
-- Parameters. Rendering prompts (text/template), decoding JSON and quoting texts, hashes, proof
-- packets, git, running the artifact of a finding, regular expressions, lower case, the ratchet and
-- the significance test, file errors, cron expressions, the faults of the database and floats are
-- arguments of the definitions that use them. Of floats a theorem assumes at most that `<=` is
-- transitive, as it is in IEEE 754. Files are held decoded, so a file that does not decode counts as one that cannot be read.
--
-- Not modelled: the commands other than those of Commands (cmd/contextcmd, cmd/sleep, cmd/toolcmd and
-- the like), whose work is to read flags and files, call the packages above and print; the JSON
-- envelopes of all commands; git (internal/vcs), adb, configuration files, sessions, redaction,
-- rubrics, prompt templates, and the processes that internal/worker and internal/harness start,
-- which are I/O or text filters; reading directories, the wiki index and boards from a random source.
pub mod Shared
pub mod Adh
pub mod Authority
pub mod Judge
pub mod Lesson
pub mod Metrics
pub mod Model
pub mod Stages
pub mod Critic
pub mod Float
pub mod Nfr
pub mod Failures
pub mod Evaluation
pub mod Store
pub mod Adr
pub mod Evidence
pub mod Consolidate
pub mod Schedule
pub mod Loops
pub mod Tools
pub mod Kpi
pub mod Context
pub mod Oracle
pub mod Worktree
pub mod Execconfig
pub mod Relay
pub mod Verdict
pub mod Commands
pub mod Examples
