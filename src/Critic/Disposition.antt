-- ===== src/Critic/Disposition.antt =====
-- internal/critic/disposition.go: the outcome of running the artifact that a finding names, and the
-- verdict on a review. A measurement is a float, here a value of the type `F`.
pub mod Laws
pub mod Notes
use agentic_dev_harness.Shared.{
  Bool, true, false, Option, none, some, List, [], ◌∷◌, ◌++◌, String, if◌then◌else◌, any, is_empty,
  not,
}
use agentic_dev_harness.Adh.Finding.{Finding, Kind, Unrunnable, trustworthy, is_structural}

pub record Adjudicated (F : Type 0) : Type 0 where
  pub finding : Finding
  pub ran : Bool
  pub failed : Bool
  pub unrunnable : Unrunnable
  pub measured : Option F
  pub regressed : Bool

pub record Verdict : Type 0 where
  pub confirmed : List Finding
  pub unconfirmed : List Finding
  pub unchecked : List Finding
  pub reservations : List Finding
  pub refused : List Finding

abbrev pub clean : Verdict
clean = record { confirmed = []; unconfirmed = []; unchecked = []; reservations = []; refused = [] }

-- `append(list, finding)` where a condition holds
abbrev pub push_if : Bool → Finding → List Finding → List Finding
push_if c f fs = if c then fs ++ f ∷ [] else fs

module _ {F : Type 0} where
  -- One round of the loop of `Dispose`.
  unfoldable pub dispose_one : Verdict → Adjudicated F → Verdict
  unfolding trustworthy
  dispose_one v r =
      if not r.ran
      then record v {
        unchecked = v.unchecked ++ r.finding ∷ [];
        refused = push_if (trustworthy r.unrunnable) r.finding v.refused;
      }
      else if r.failed
      then record v { confirmed = v.confirmed ++ r.finding ∷ [] }
      else record v {
        unconfirmed = v.unconfirmed ++ r.finding ∷ [];
        reservations = push_if r.regressed r.finding v.reservations;
      }

  pub dispose_from : Verdict → List (Adjudicated F) → Verdict
  dispose_from v [] = v
  dispose_from v (r ∷ rs) = dispose_from (dispose_one v r) rs

  -- `Dispose`
  unfoldable pub dispose : List (Adjudicated F) → Verdict
  unfolding dispose_from dispose_one
  dispose results = dispose_from clean results

-- `ReturnsToExecution`
unfoldable pub returns_to_execution : Verdict → Bool
returns_to_execution v = not (is_empty v.confirmed)

-- `HasStructural`
unfoldable pub has_structural : Verdict → Bool
unfolding is_structural
has_structural v = any is_structural v.confirmed

abbrev first_kind : List Finding → Option Kind
first_kind [] = none
first_kind (f ∷ fs) = some f.kind

-- `BlockingKind`; `none` is the empty kind.
unfoldable pub blocking_kind : Verdict → Option Kind
blocking_kind v = first_kind v.confirmed
