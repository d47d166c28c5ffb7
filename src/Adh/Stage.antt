-- ===== src/Adh/Stage.antt =====
-- internal/adh/domain.go: the stages, statuses and resolutions of an arc. They are Go strings with
-- named constants; `other` stands for every text that is no constant, the empty one included.
use Prim.Native.String.{String}
use agentic_dev_harness.Shared.{
  ◌≡◌, refl, Bool, true, false, Option, none, some, ◌==◌, eq_iff, if◌then◌else◌, arith, [], ◌∷◌,
  concat,
}
use agentic_dev_harness.Adh.Error.{Result, ok, err, invalid, coded}

pub data Stage : Type 0 where
  strategy execution critic evaluation ops : Stage
  other : String → Stage

pub data Status : Type 0 where
  open_ blocked closed failed : Status
  other : String → Status

pub data Resolution : Type 0 where
  unset change investigation experiment decision : Resolution
  other : String → Resolution

unfoldable pub stage_text : Stage → String
stage_text strategy = "strategy"
stage_text execution = "execution"
stage_text critic = "critic"
stage_text evaluation = "evaluation"
stage_text ops = "ops"
stage_text (Stage.other s) = s

unfoldable pub status_text : Status → String
status_text open_ = "open"
status_text blocked = "blocked"
status_text closed = "closed"
status_text failed = "failed"
status_text (Status.other s) = s

unfoldable pub resolution_text : Resolution → String
resolution_text unset = ""
resolution_text change = "change"
resolution_text investigation = "investigation"
resolution_text experiment = "experiment"
resolution_text decision = "decision"
resolution_text (Resolution.other s) = s

-- `a == b` on stages
unfoldable pub same_stage : Stage → Stage → Bool
unfolding stage_text
same_stage a b = stage_text a == stage_text b

-- `Resolution(s)`
unfoldable pub to_resolution : String → Resolution
to_resolution s =
    if s == ""
    then unset
    else if s == "change"
    then change
    else if s == "investigation"
    then investigation
    else if s == "experiment"
    then experiment
    else if s == "decision"
    then decision
    else Resolution.other s

-- `NextStage`; `none` is the answer `("", false)`.
unfoldable pub next_stage : Stage → Option Stage
next_stage strategy = some execution
next_stage execution = some critic
next_stage critic = some evaluation
next_stage evaluation = some ops
next_stage ops = none
next_stage (Stage.other s) = none

-- `Resolution.Valid`
unfoldable pub resolution_valid : Resolution → Bool
resolution_valid change = true
resolution_valid investigation = true
resolution_valid experiment = true
resolution_valid decision = true
resolution_valid _ = false

-- `Resolution.ProofKind`
unfoldable pub proof_kind : Resolution → String
proof_kind change = "the change's tests pass and its review/CI checks are green"
proof_kind investigation = "the sources inspected and the reproducible finding"
proof_kind experiment = "the instrumentation and the readout that answers the product question"
proof_kind decision = "the evidence and the rationale behind the call"
proof_kind _ = ""

-- `ParseResolution`
unfoldable pub parse_resolution : String → Result Resolution
unfolding to_resolution resolution_valid
parse_resolution s =
    let res = to_resolution s in
    if resolution_valid res
    then ok res
    else err (coded invalid (concat ("unknown resolution: " ∷ s ∷ [])))

-- A parsed resolution is a valid one whose text is exactly the text that was parsed, and the text
-- of every valid resolution parses back to it.
pub parse_resolution-resolution_text :
    (s : String) (r : Resolution)
    → (parse_resolution s ≡ ok r → (resolution_valid r ≡ true) × (resolution_text r ≡ s))
      × (resolution_valid r ≡ true → parse_resolution (resolution_text r) ≡ ok r)
unfolding parse_resolution resolution_text resolution_valid
parse_resolution-resolution_text s r = (forward, back r)
  where
    forward : parse_resolution s ≡ ok r → (resolution_valid r ≡ true) × (resolution_text r ≡ s)
    forward h = ground (
      arith,
      eq_iff s "",
      eq_iff s "change",
      eq_iff s "investigation",
      eq_iff s "experiment",
      eq_iff s "decision",
    )

    back :
        (q : Resolution) → resolution_valid q ≡ true → parse_resolution (resolution_text q) ≡ ok q
    back change h = refl
    back investigation h = refl
    back experiment h = refl
    back decision h = refl
    back unset h = ground arith
    back (Resolution.other t) h = ground arith
