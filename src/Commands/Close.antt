-- ===== src/Commands/Close.antt =====
-- cmd/closecmd/closecmd.go: an approved arc ships under NO-PROOF-NO-CLOSE. Proof packets, files and
-- the repository of git are outside; `Outside` is what they answer.
pub mod Laws
use Prim.Native.String.{len}
use agentic_dev_harness.Shared.{
  ℕ, ◌+◌, Bool, true, false, Option, none, some, List, [], ◌∷◌, ◌++◌, String, ◌==◌, if◌then◌else◌,
  concat, length,
}
use agentic_dev_harness.Adh.Error.{
  Error, Result, ok, err, Code, coded, conflict, context, error_code,
}
use agentic_dev_harness.Adh.Stage.{
  Stage, ops, Status, open_, blocked, closed, Resolution, decision, change, stage_text, status_text,
  resolution_text, parse_resolution,
}
use agentic_dev_harness.Adh.Arc.{Arc, can_close}
use agentic_dev_harness.Adr.{valid}
use agentic_dev_harness.Commands.World.{
  World, Machine, MetricRecord, Outcome, done, error, exit, missing_operand, Command, with_arc,
  saving, finished,
}

-- `prooflib.Load` and `prooflib.Verify` of the packet behind a manifest, `os.ReadFile`, and what
-- committing an arc's work gave: nothing, or a hash and the branch.
pub record Outside (U : Type 0) : Type 1 where
  pub Packet : Type 0
  pub load : String → Result Packet
  pub verify : Packet → Option Error
  pub read_file : String → Result String
  pub commit : Arc U → Option (String × String)

pub record CloseConfig : Type 0 where
  pub as_ : String
  pub proof : String
  pub dry_run : Bool

abbrev not_ready : String → String → String → Option Error
not_ready id what tail =
    some (coded conflict (concat ("close: arc " ∷ id ∷ " is " ∷ what ∷ tail ∷ [])))

abbrev status_ready : String → Status → Option Error
status_ready id open_ = none
status_ready id blocked = not_ready id "blocked" "; approve the ops gate first"
status_ready id s = not_ready id (status_text s) ", not open"

abbrev stage_ready : String → Stage → Option Error → Option Error
stage_ready id ops rest = rest
stage_ready id s rest = some (
    coded conflict
      (concat ("close: arc " ∷ id ∷ " is at " ∷ stage_text s ∷ ", not the ops gate" ∷ [])))

-- What a check of `close` ends the command with, unless it passes.
pub data Check {ℓ} (A : Type ℓ) : Type ℓ where
  passed : A → Check A
  ended : Outcome → Check A

-- `proofFail`
abbrev pub proof_fail {ℓ} : {A : Type ℓ} → Check A
proof_fail = ended (exit 8)

abbrev pub of_error {ℓ} : {A : Type ℓ} → Option Error → A → Check A
of_error none a = passed a
of_error (some e) a = ended (error e)

abbrev pub of_result {ℓ} : {A : Type ℓ} → Result A → Check A
of_result (ok a) = passed a
of_result (err e) = ended (error (context "close" e))

infixl 5 ◌>>=◌
abbrev pub ◌>>=◌ {ℓ κ} : {A : Type ℓ} {B : Type κ} → Check A → (A → Check B) → Check B
passed a >>= f = f a
ended o >>= f = ended o

abbrev pub verdict_of : Option Error → Check Bool
verdict_of none = passed true
verdict_of (some e) = proof_fail

abbrev pub decision_of : Result String → Check Bool
decision_of (ok text) = verdict_of (valid text)
decision_of (err e) = proof_fail

-- `metricslib.Record` of an arc, as `recordMetric` fills it in
history_bytes : List String → ℕ
history_bytes [] = 0
history_bytes (entry ∷ entries) = len entry + history_bytes entries

abbrev pub is_conflict : Code → Bool
is_conflict conflict = true
is_conflict _ = false

module _ {U : Type 0} where
  -- `readyToClose`; `none` is the nil error.
  unfoldable pub ready_to_close : Arc U → Option Error
  unfolding stage_text status_text
  ready_to_close arc = stage_ready arc.id arc.stage (status_ready arc.id arc.status)

  abbrev pub metric : Arc U → MetricRecord
  unfolding history_bytes
  metric arc = record {
    arc = arc.id;
    attention_minutes = length arc.history;
    compute_tokens = history_bytes arc.history;
    accepted = true;
  }

  abbrev pub add_metric : Option Error → MetricRecord → World U → World U
  add_metric none r w = record w { metrics = w.metrics ++ r ∷ [] }
  add_metric (some e) r w = w

  -- `recordMetric`; the command only logs that it failed.
  unfoldable pub record_metric : Machine → Arc U → World U → World U
  record_metric machine arc w = add_metric machine.metrics_fault (metric arc) w

  unfoldable pub can_close_check : Arc U → Option Error → Check (Arc U)
  unfolding error_code
  can_close_check arc none = passed arc
  can_close_check arc (some e) =
      if is_conflict (error_code e) then proof_fail else ended (error (context "close" e))

  abbrev pub with_commit : Option (String × String) → Arc U → Arc U
  with_commit none arc = arc
  with_commit (some (hash, branch)) arc = record arc {
    history = arc.history ++ concat ("committed " ∷ hash ∷ " on " ∷ branch ∷ []) ∷ [];
  }

  abbrev pub ship_as : Resolution → Outside U → Arc U → Arc U
  ship_as change outside arc = with_commit (outside.commit arc) arc
  ship_as _ outside arc = arc

  -- `ship`, with the history line of the commit
  unfoldable pub ship : Outside U → Arc U → Arc U
  ship outside arc = ship_as arc.resolution outside arc

  unfoldable pub shipped : Outside U → Arc U → Arc U
  unfolding resolution_text
  shipped outside arc =
      let arc' = ship outside arc in
      record arc' {
        status = closed;
        history = arc'.history ++ concat ("closed as " ∷ resolution_text arc.resolution ∷ []) ∷ [];
      }

module _ {U : Type 0} (machine : Machine) (outside : Outside U) (cfg : CloseConfig) where
  open outside use {load, verify, read_file}
  open cfg use {as_, proof, dry_run}

  -- `applyResolution`
  unfoldable pub apply_resolution : Arc U → Check (Arc U)
  apply_resolution arc =
      if as_ == ""
      then passed arc
      else of_result (parse_resolution as_) >>= λ r. passed (record arc { resolution = r })

  -- `verifyDecisionProof`
  unfoldable pub decision_proof : String → Check Bool
  unfolding valid
  decision_proof path = decision_of (read_file path)

  unfoldable pub packet_proof : String → Check Bool
  packet_proof manifest = of_result (load manifest) >>= λ packet. verdict_of (verify packet)

  abbrev pub proof_at : Resolution → String → Check Bool
  proof_at decision manifest = decision_proof manifest
  proof_at _ manifest = packet_proof manifest

  -- `verifyProof`
  unfoldable pub verify_proof : Arc U → Check Bool
  unfolding decision_proof packet_proof
  verify_proof arc =
      let manifest : String = if proof == "" then arc.proof else proof in
      if manifest == "" then passed false else proof_at arc.resolution manifest

  -- `verifyProof` and `CanClose`, as `exec` uses them
  unfoldable pub proven : Arc U → Check (Arc U)
  unfolding verify_proof can_close can_close_check
  proven arc = verify_proof arc >>= λ has_proof. can_close_check arc (can_close arc has_proof)

  -- The checks of `exec`, up to the dry run.
  unfoldable pub checked : Arc U → Check (Arc U)
  unfolding ready_to_close apply_resolution proven
  checked arc = of_error (ready_to_close arc) arc >>= λ ready. apply_resolution ready >>= proven

  abbrev pub shipping : Arc U → Command U
  shipping arc =
      let arc' = shipped outside arc in
      saving machine "close" arc' (λ w. finished machine (record_metric machine arc' w))

  abbrev pub at_gate : Check (Arc U) → Command U
  at_gate (ended o) w = (o, w)
  at_gate (passed arc) w = if dry_run then (done, w) else shipping arc w

  -- `exec`
  unfoldable pub close : List String → Command U
  close [] w = (missing_operand, w)
  close (id ∷ args) w = with_arc machine "close" id (λ arc. at_gate (checked arc)) w
