-- ===== src/Nfr.antt =====
-- internal/nfr/nfr.go: nonfunctional requirements as Planguage specs. Measurements are floats, and
-- quoting a text with `%q` is the parameter `quote`.
pub mod Laws
use agentic_dev_harness.Shared.{
  Bool, true, false, not, ◌&&◌, ◌||◌, Option, none, some, List, [], ◌∷◌, String, ◌==◌,
  if◌then◌else◌, concat, filter, find?, any, cut_at, Cut,
}
use agentic_dev_harness.Adh.Error.{Error, coded, invalid, switch}
use agentic_dev_harness.Float.{Float}

pub data Direction : Type 0 where
  higher lower : Direction
  other : String → Direction

pub record Spec (F : Type 0) : Type 0 where
  pub id : String
  pub tag : String
  pub scale : String
  pub meter : String
  pub direction : Direction
  pub baseline : F
  pub fail : F
  pub goal : F
  pub stretch : F
  pub guard : Bool

abbrev is_higher : Direction → Bool
is_higher higher = true
is_higher _ = false

abbrev direction_known : Direction → Bool
direction_known (Direction.other s) = false
direction_known _ = true

direction_text : Direction → String
direction_text higher = "higher"
direction_text lower = "lower"
direction_text (Direction.other s) = s

abbrev categories : List String
categories =
    "Performance" ∷ "Reliability" ∷ "Usability" ∷ "Functionality" ∷ "Supportability" ∷ "Security"
    ∷ "Maintainability" ∷ "Portability" ∷ "Compatibility" ∷ "Audit" ∷ "Legal" ∷ "Privacy" ∷ []

-- `knownCategory`
unfoldable pub known_category : String → Bool
known_category head = any (λ c. head == c) categories

module _ (float : Float) where
  open float use {F, zero, lt, le, eq}

  -- `Meets`
  unfoldable pub meets : Spec F → F → Bool
  meets s value = if is_higher s.direction then le s.fail value else le value s.fail

  -- `Regressed`
  unfoldable pub regressed : Spec F → F → Bool
  regressed s value =
      if eq s.baseline zero
      then false
      else if is_higher s.direction
      then lt value s.baseline
      else lt s.baseline value

  -- `ordered`
  unfoldable pub ordered : Spec F → Bool
  ordered s =
      if is_higher s.direction
      then le s.fail s.goal && (eq s.stretch zero || le s.goal s.stretch)
      else le s.goal s.fail && (eq s.stretch zero || le s.stretch s.goal)

  -- The cases of the `switch` in `Valid`.
  unfoldable pub valid_cases : (String → String) → Spec F → List (Bool × Error)
  unfolding ordered known_category direction_text
  valid_cases quote s =
      (s.id == "", coded invalid "nfr spec with empty id")
      ∷ (
        s.tag == "" || not (known_category (cut_at b'.' s.tag).first),
        coded invalid (
            concat (
              "nfr "
              ∷ s.id
              ∷ ": tag "
              ∷ quote s.tag
              ∷ " must lead with a known category (FURPS+/ISO 25010)"
              ∷ [])),
      )
      ∷ (s.scale == "", coded invalid (concat ("nfr " ∷ s.id ∷ " has no scale" ∷ [])))
      ∷ (s.meter == "", coded invalid (concat ("nfr " ∷ s.id ∷ " has no meter (§13)" ∷ [])))
      ∷ (
        not (direction_known s.direction),
        coded invalid (concat ("nfr " ∷ s.id ∷ " direction must be higher or lower" ∷ [])),
      )
      ∷ (
        not (ordered s),
        coded invalid (
            concat (
              "nfr "
              ∷ s.id
              ∷ ": fail/goal/stretch not ordered for "
              ∷ direction_text s.direction
              ∷ "-is-better"
              ∷ [])),
      )
      ∷ []

  -- `Valid`; `none` is the nil error.
  unfoldable pub valid : (String → String) → Spec F → Option Error
  unfolding switch valid_cases
  valid quote s = switch (valid_cases quote s)

module _ {F : Type 0} where
  -- `Guards`
  unfoldable pub guards : List (Spec F) → List (Spec F)
  guards specs = filter (λ s. s.guard) specs

  -- `ByID`
  unfoldable pub by_id : List (Spec F) → String → Option (Spec F)
  by_id specs id = find? (λ s. s.id == id) specs
