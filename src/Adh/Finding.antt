-- ===== src/Adh/Finding.antt =====
-- internal/adh/domain.go and unrunnable.go: findings, their kinds and classes, and why an artifact
-- did not run. `other` stands for every text that is no constant.
use Prim.Native.String.{String}
use agentic_dev_harness.Shared.{Bool, true, false, List, [], ◌∷◌}

pub data Kind : Type 0 where
  oracle invariant device nfr contract : Kind
  other : String → Kind

-- `unset` is the empty class.
pub data Class : Type 0 where
  unset fixable structural : Class
  other : String → Class

pub data Unrunnable : Type 0 where
  unset no_ref unknown_ref tool_failed : Unrunnable

pub record Finding : Type 0 where
  pub summary : String
  pub kind : Kind
  pub ref : String
  pub class : Class

unfoldable pub kind_text : Kind → String
kind_text oracle = "oracle"
kind_text invariant = "invariant"
kind_text device = "device"
kind_text nfr = "nfr"
kind_text contract = "contract"
kind_text (Kind.other s) = s

unfoldable pub class_text : Class → String
class_text Class.unset = ""
class_text fixable = "fixable"
class_text structural = "structural"
class_text (Class.other s) = s

-- `FindingKind.Valid`
unfoldable pub kind_valid : Kind → Bool
kind_valid (Kind.other s) = false
kind_valid _ = true

-- `FindingClass.Valid`
unfoldable pub class_valid : Class → Bool
class_valid (Class.other s) = false
class_valid _ = true

abbrev class_structural : Class → Bool
class_structural structural = true
class_structural _ = false

-- `(*Finding).IsStructural`
unfoldable pub is_structural : Finding → Bool
is_structural f = class_structural f.class

-- `FindingKinds`
abbrev pub finding_kinds : List Kind
finding_kinds = oracle ∷ invariant ∷ device ∷ nfr ∷ contract ∷ []

-- `Unrunnable.Trustworthy`
unfoldable pub trustworthy : Unrunnable → Bool
trustworthy tool_failed = true
trustworthy _ = false
