-- ===== src/Adh/Arc.antt =====
-- internal/adh/domain.go: the arc, its pending turn, and the rule NO-PROOF-NO-CLOSE. What a critic
-- declares unexamined is a type of a library, here the parameter `U`.
use Prim.Native.String.{String}
use agentic_dev_harness.Shared.{
  ℕ, ◌≡◌, ◌↔◌, Bool, true, Option, none, some, List, [], ◌∷◌, if◌then◌else◌, concat, arith,
}
use agentic_dev_harness.Adh.Error.{Error, coded, invalid, conflict}
use agentic_dev_harness.Adh.Stage.{Stage, Status, Resolution, resolution_valid, resolution_text}
use agentic_dev_harness.Adh.Finding.{Finding}

pub record Pending : Type 0 where
  pub stage : Stage
  pub prompt : String

pub record Arc (U : Type 0) : Type 0 where
  pub id : String
  pub title : String
  pub stage : Stage
  pub status : Status
  pub resolution : Resolution
  pub history : List String
  pub pending : Option Pending
  pub labels : List String
  pub paths : List String
  pub context : List String
  pub proof : String
  pub findings : List Finding
  pub unexamined : List U
  pub bar : String
  pub reworks : ℕ

-- `CanClose`: `none` is the nil error.
unfoldable pub can_close : {U : Type 0} → Arc U → Bool → Option Error
unfolding resolution_valid resolution_text
can_close arc has_proof =
    if resolution_valid arc.resolution
    then (if has_proof
        then none
        else some (
            coded conflict (
              concat (
                "no proof: "
                ∷ resolution_text arc.resolution
                ∷ " requires matching, verified proof"
                ∷ []))))
    else some (coded invalid "arc has no valid resolution")

-- An arc may close exactly when its resolution is one of the four and its proof was verified.
pub can_close_iff :
    {U : Type 0} (arc : Arc U) (has_proof : Bool)
    → (can_close arc has_proof ≡ none)
      ↔ ((resolution_valid arc.resolution ≡ true) × (has_proof ≡ true))
unfolding can_close
can_close_iff arc has_proof = ground arith
