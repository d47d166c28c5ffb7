-- ===== src/Examples/Data.antt =====
-- Test data: one arc at a chosen place, its workspace, and what stands for the code outside.
use agentic_dev_harness.Shared.{
  ℕ, ◌+◌, ◌-◌, ◌*◌, ltb, leb, eqb, Bool, true, false, Option, none, some, [], ◌∷◌, String, ◌==◌,
  if◌then◌else◌,
}
use agentic_dev_harness.Adh.Error.{Result, ok, err, foreign}
use agentic_dev_harness.Adh.Stage.{Stage, Status, Resolution}
use agentic_dev_harness.Adh.Finding.{Finding, oracle, fixable, structural, Unrunnable}
use agentic_dev_harness.Adh.Arc.{Arc}
use agentic_dev_harness.Critic.Disposition.{Adjudicated, Verdict}
use agentic_dev_harness.Critic.Reply.{Decoder}
use agentic_dev_harness.Evaluation.Adjudicate.{Adjudicator}
use agentic_dev_harness.Failures.{Logs, healthy}
use agentic_dev_harness.Float.{Float}
use agentic_dev_harness.Store.{sound, path}
use agentic_dev_harness.Commands.World.{World, Machine}
use agentic_dev_harness.Commands.Close.{Outside, CloseConfig}
use agentic_dev_harness.Commands.Run.{RunConfig}
use agentic_dev_harness.Commands.Relayed.{RelayConfig, Workspace}
use agentic_dev_harness.Context.Trust.{TrustTier}
use agentic_dev_harness.Context.Freshness.{ContextUnit, Freshness}
use agentic_dev_harness.Critic.Grounding.{Grounding, Inputs, Loads}

abbrev pub bug : Finding
bug = record { summary = "overflow"; kind = oracle; ref = "fuzz"; class = fixable }

abbrev pub flaw : Finding
flaw = record { summary = "wrong layer"; kind = oracle; ref = "fuzz"; class = structural }

-- An arc of the unexamined entries `String`.
abbrev pub sample_arc : Stage → Status → Arc String
sample_arc stage status = record {
  id = "arc-0001";
  title = "fix the sum";
  stage = stage;
  status = status;
  resolution = Resolution.change;
  history = "opened" ∷ [];
  pending = none;
  labels = [];
  paths = [];
  context = [];
  proof = "good";
  findings = bug ∷ [];
  unexamined = [];
  bar = "";
  reworks = 0;
}

abbrev pub no_logs : Logs
no_logs = record { records = []; precision = []; candidates = []; registry = [] }

abbrev pub machine : Machine
machine = record { files = sound; disk = healthy; metrics_fault = none }

abbrev pub world : Arc String → World String
world arc = record { store = (path arc.id, arc) ∷ []; logs = no_logs; metrics = [] }

-- Only the packet "good" verifies, and nothing is under git.
abbrev pub outside : Outside String
outside = record {
  Packet = String;
  load = λ manifest. ok manifest;
  verify = λ packet. if packet == "good" then none else some (foreign "digest mismatch");
  read_file = λ path. err (foreign "no such file");
  commit = λ arc. none;
}

abbrev pub plain_close : CloseConfig
plain_close = record { as_ = ""; proof = ""; dry_run = false }

-- Each finding's artifact runs; it fails exactly for `bug`.
abbrev pub adjudicator : Adjudicator ℕ
adjudicator = record { why = none; adjudicate = λ f. ok (true, f.summary == "overflow") }

abbrev pub run_config : RunConfig String (Unit {0}) ℕ
run_config = record {
  level = 4;
  judgment = [];
  record_lessons = true;
  max_reworks = 2;
  stratum = "2026-07";
  prompter = λ arc ground_. ok arc.title;
  adjudicator = ok adjudicator;
  specs = ok [];
}

abbrev pub result : Finding → Bool → Bool → Adjudicated ℕ
result f ran failed = record {
  finding = f;
  ran = ran;
  failed = failed;
  unrunnable = Unrunnable.unset;
  measured = none;
  regressed = false;
}

abbrev pub confirming : Verdict
confirming = record {
  confirmed = bug ∷ [];
  unconfirmed = [];
  unchecked = [];
  reservations = [];
  refused = [];
}

-- A decoder that finds one bug in every reply.
abbrev pub decoder : Decoder String
decoder = record {
  decode = λ text. ok (bug ∷ [], []);
  valid = λ u. true;
  aspect = λ u. u;
  reason = λ u. u;
  quote = λ text. text;
}

-- A unit that governs `internal/state` and is labelled `store`.
abbrev pub store_unit : ContextUnit
store_unit = record {
  id = "state";
  kind = "note";
  labels = "store" ∷ [];
  paths = "internal/state" ∷ [];
  owner = "";
  content_path = "state.md";
  provenance = "";
  sources = [];
  claims = [];
  integrity = "";
  verified = record { events = "human:steve" ∷ []; stated = TrustTier.unset };
  superseded_by = "";
  freshness = Freshness.unknown;
}

-- A store of this one unit, with no hidden characters in its text.
abbrev pub loads : Loads String
loads = record {
  units = ok (store_unit ∷ []);
  content = λ u. some "text";
  hidden = λ text. [];
  packet = λ manifest. ok (manifest ∷ []);
}

abbrev pub relay_drive : RunConfig String (Grounding String String String) ℕ
relay_drive = record {
  level = 4;
  judgment = [];
  record_lessons = true;
  max_reworks = 2;
  stratum = "2026-07";
  prompter = λ arc g. ok arc.title;
  adjudicator = ok adjudicator;
  specs = ok [];
}

abbrev pub relay_config : Option (Result String) → RelayConfig String String String
relay_config reply = record {
  decoder = decoder;
  loads = loads;
  tools = ok [];
  proof_contract = λ r. "tests pass";
  bar_hash = λ bar. bar;
  diff = λ paths. "";
  denied = [];
  noisy = λ entries. [];
  clean = λ path. path;
  changed = some ("internal/state/state.go" ∷ []);
  response = reply;
  coverage_read = true;
  coverage_written = true;
  misses_written = true;
}

abbrev pub workspace : Arc String → Workspace String
workspace arc = record { world = world arc; coverage = []; misses = [] }

-- The sample arc with a prompt parked for its stage.
abbrev pub waiting_arc : Stage → Arc String
waiting_arc stage = record (sample_arc stage Status.open_) {
  pending = some (record { stage = stage; prompt = "plan" });
}

abbrev pub plain_inputs : Inputs String String
plain_inputs = record {
  acceptance_bar = "";
  diff = "";
  tools = [];
  coverage = [];
  noisy = [];
  denied = [];
  prior_gaps = [];
}

-- Natural numbers in the place of floats.
abbrev pub naturals : Float
naturals = record {
  F = ℕ;
  zero = 0;
  of_nat = λ n. n;
  lt = λ a b. ltb a b;
  le = λ a b. leb a b;
  eq = λ a b. eqb a b;
  add = λ a b. a + b;
  sub = λ a b. a - b;
  mul = λ a b. a * b;
  div = λ a b. a;
}
