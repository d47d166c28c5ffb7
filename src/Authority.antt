-- ===== src/Authority.antt =====
-- internal/authority/authority.go: the autonomy ladder, the model-gate and the human safety gate.
use agentic_dev_harness.Shared.{
  ℕ, zero, suc, ◌≡◌, refl, ◌↔◌, ◌≢◌, ◌≤◌, Bool, true, false, not, ◌&&◌, Option, none, some, List,
  [], ◌∷◌, String, ◌==◌, eq_iff, ltb, if◌then◌else◌, any, filter, concat, arith,
}
use agentic_dev_harness.Adh.Error.{Error, Result, ok, err, coded, invalid, unauthorized}
use agentic_dev_harness.Adh.Stage.{
  Stage, strategy, execution, critic, evaluation, ops, same_stage, stage_text,
}

-- `Level` is an int; the rungs are 0 to 4.
abbrev pub Level : Type 0
Level = ℕ

abbrev pub l2 : Level
l2 = 2

-- `unset` is the empty class.
pub data ModelClass : Type 0 where
  unset reasoning fast : ModelClass
  other : String → ModelClass

-- The stages that a `JudgmentRoles` map holds as true.
abbrev pub JudgmentRoles : Type 0
JudgmentRoles = List Stage

-- `Level.String`
unfoldable pub level_text : Level → String
level_text zero = "L0"
level_text (suc zero) = "L1"
level_text (suc (suc zero)) = "L2"
level_text (suc (suc (suc zero))) = "L3"
level_text (suc (suc (suc (suc zero)))) = "L4"
level_text _ = "L?"

-- `ParseLevel`
unfoldable pub parse_level : String → Result Level
parse_level s =
    if s == "L0"
    then ok 0
    else if s == "L1"
    then ok 1
    else if s == "L2"
    then ok 2
    else if s == "L3"
    then ok 3
    else if s == "L4"
    then ok 4
    else err (coded invalid (concat ("unknown autonomy level: " ∷ s ∷ [])))

-- `RaiseIsGated`
unfoldable pub raise_is_gated : Level → Level → Bool
raise_is_gated cur next = ltb cur next

-- `JudgmentRoles.Requires`
unfoldable pub requires : JudgmentRoles → Stage → Bool
unfolding same_stage
requires judgment role = any (λ s. same_stage s role) judgment

-- `JudgmentRole`
unfoldable pub judgment_role : Stage → Bool
judgment_role strategy = true
judgment_role critic = true
judgment_role evaluation = true
judgment_role _ = false

-- `DefaultJudgmentRoles`
unfoldable pub default_judgment_roles : JudgmentRoles
unfolding judgment_role
default_judgment_roles =
    filter judgment_role (strategy ∷ execution ∷ critic ∷ evaluation ∷ ops ∷ [])

abbrev is_reasoning : ModelClass → Bool
is_reasoning reasoning = true
is_reasoning _ = false

-- `ModelGate`; `none` is the nil error.
unfoldable pub model_gate : Stage → ModelClass → JudgmentRoles → Option Error
model_gate role class judgment =
    if requires judgment role && not (is_reasoning class)
    then some (
        coded unauthorized (
          concat
            ("judgment role " ∷ stage_text role ∷ " must run on a reasoning-class model" ∷ [])))
    else none

-- `RequiredApprovalPhrase`
unfoldable pub required_approval_phrase : String → String
required_approval_phrase arc_id = arc_id

-- `GateSatisfied`
unfoldable pub gate_satisfied : String → String → Bool → Bool
gate_satisfied required provided dry_run =
    if dry_run then false else not (required == "") && provided == required

-- Parsing inverts printing on the five rungs, and only the printed name of a rung parses to it.
parse_level-level_text :
    (s : String) (l : Level)
    → (l ≤ 4 → parse_level (level_text l) ≡ ok l)
      × (parse_level s ≡ ok l → (level_text l ≡ s) × (l ≤ 4))
unfolding parse_level level_text
parse_level-level_text s l = (back l, forward)
  where
    back : (k : Level) → k ≤ 4 → parse_level (level_text k) ≡ ok k
    back zero h = refl
    back (suc zero) h = refl
    back (suc (suc zero)) h = refl
    back (suc (suc (suc zero))) h = refl
    back (suc (suc (suc (suc zero)))) h = refl
    back (suc (suc (suc (suc (suc k))))) h = absurd (omega arith)

    forward : parse_level s ≡ ok l → (level_text l ≡ s) × (l ≤ 4)
    forward h =
        ground (arith, eq_iff s "L0", eq_iff s "L1", eq_iff s "L2", eq_iff s "L3", eq_iff s "L4")

-- The model-gate passes exactly when the role is outside the judgment set or the model is of the
-- reasoning class.
model_gate_iff :
    (role : Stage) (class : ModelClass) (judgment : JudgmentRoles)
    → (model_gate role class judgment ≡ none) ↔ (requires judgment role ≡ true → class ≡ reasoning)
unfolding model_gate
model_gate_iff role reasoning judgment = (λ h r. refl, λ h. ground arith)
model_gate_iff role ModelClass.unset judgment = (λ h r. ground arith, λ h. ground arith)
model_gate_iff role fast judgment = (λ h r. ground arith, λ h. ground arith)
model_gate_iff role (ModelClass.other s) judgment = (λ h r. ground arith, λ h. ground arith)

-- The safety gate is satisfied exactly by the arc's own id, typed as it is, outside a dry run and
-- for an arc whose id is not empty.
pub gate_satisfied_iff :
    (arc_id provided : String) (dry_run : Bool)
    → (gate_satisfied (required_approval_phrase arc_id) provided dry_run ≡ true)
      ↔ ((dry_run ≡ false) × (arc_id ≢ "") × (provided ≡ arc_id))
unfolding gate_satisfied required_approval_phrase
gate_satisfied_iff arc_id provided dry_run = (
  λ h. ground (arith, eq_iff arc_id "", eq_iff provided arc_id),
  λ h. ground (arith, eq_iff arc_id "", eq_iff provided arc_id),
)
