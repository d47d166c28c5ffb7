-- ===== src/Tools/Registry.antt =====
-- internal/toolreg/toolreg.go: tools, when their registry is valid, and how one is found and invoked.
pub mod Laws
use agentic_dev_harness.Shared.{
  Bool, not, ◌&&◌, Option, none, some, List, [], ◌∷◌, String, ◌==◌, if◌then◌else◌, concat, join,
  find?, has, is_empty,
}
use agentic_dev_harness.Adh.Error.{Error, wrap, coded, invalid, switch, Result, ok, err}
use agentic_dev_harness.Adh.Finding.{Kind, kind_text, kind_valid}
use agentic_dev_harness.Adh.Kpi.{Kpi, kpi_valid}
use agentic_dev_harness.Adh.Registry.{validate_from, or_else}

-- `Tool`, with the floats of its performance indicators
pub record Tool (F : Type 0) : Type 0 where
  pub id : String
  pub run : String
  pub command : String
  pub args : List String
  pub result : String
  pub verifies : String
  pub repair_hint : String
  pub kpis : List (Kpi F)
  pub adjudicates : List Kind
  pub if_absent : String

-- `Command` of internal/shell
pub record Command : Type 0 where
  pub script : String
  pub argv : List String

-- `String`
unfoldable pub command_text : Command → String
command_text c = if not (is_empty c.argv) then join " " c.argv else c.script

abbrev message : List String → Error
message words = coded invalid (concat words)

unfoldable pub kind_problem : String → List Kind → Option Error
kind_problem id [] = none
kind_problem id (kind ∷ kinds) =
    let later = kind_problem id kinds in
    if kind_valid kind
    then later
    else some (message ("tool " ∷ id ∷ " adjudicates unknown finding kind: " ∷ kind_text kind ∷ []))

module _ {F : Type 0} where
  -- `commandFormProblem`
  unfoldable pub command_form_problem : Tool F → String
  command_form_problem tool =
      if tool.run == "" && tool.command == ""
      then "has no run command"
      else if not (tool.run == "") && not (tool.command == "")
      then "declares both run and command; use one"
      else if tool.command == "" && not (is_empty tool.args)
      then "declares args without a command"
      else ""

  -- The switch of `Validate` for one tool, with the ids before it.
  unfoldable pub shape_problem : List String → Tool F → Option Error
  shape_problem seen tool =
      let form = command_form_problem tool in
      switch (
        (tool.id == "", message ("tool with empty id" ∷ []))
        ∷ (not (form == ""), message ("tool " ∷ tool.id ∷ " " ∷ form ∷ []))
        ∷ (tool.verifies == "", message ("tool " ∷ tool.id ∷ " declares no 'verifies'" ∷ []))
        ∷ (has tool.id seen, message ("duplicate tool id: " ∷ tool.id ∷ []))
        ∷ [])

  unfoldable pub kpi_problem : String → List (Kpi F) → Option Error
  kpi_problem id [] = none
  kpi_problem id (kpi ∷ kpis) =
      let later = kpi_problem id kpis in
      if kpi_valid kpi
      then later
      else some (message ("tool " ∷ id ∷ " declares a malformed KPI (§16/§18)" ∷ []))

  -- The body of the loop of `Validate`
  unfoldable pub problem : List String → Tool F → Option Error
  problem seen tool =
      or_else (shape_problem seen tool)
        (or_else (kind_problem tool.id tool.adjudicates) (kpi_problem tool.id tool.kpis))

  -- `Validate`
  unfoldable pub validate : List (Tool F) → Option Error
  validate tools = validate_from (λ tool. tool.id) problem [] tools

  -- `FindByVerifies`
  unfoldable pub find_by_verifies : String → List (Tool F) → Option (Tool F)
  find_by_verifies verifies tools = find? (λ tool. tool.verifies == verifies) tools

  -- `FindByID`
  unfoldable pub find_by_id : String → List (Tool F) → Option (Tool F)
  find_by_id id tools = find? (λ tool. tool.id == id) tools

  -- `Invocation`
  unfoldable pub invocation : Tool F → Command
  invocation tool =
      if not (tool.command == "")
      then record { script = ""; argv = tool.command ∷ tool.args }
      else record { script = tool.run; argv = [] }

  abbrev starter : String → String → String → String → String → Tool F
  starter id run result verifies repair_hint = record {
    id = id;
    run = run;
    command = "";
    args = [];
    result = result;
    verifies = verifies;
    repair_hint = repair_hint;
    kpis = [];
    adjudicates = [];
    if_absent = "";
  }

  -- `StarterRegistry`
  abbrev pub starter_registry : List (Tool F)
  starter_registry =
      starter "modelith-lint" "modelith lint --format json" "json"
        "domain-model reference integrity (cardinality, ownership, cycles, dangling refs)"
        "install modelith: go install github.com/stacklok/modelith@latest"
      ∷ starter "modelith-render-check" "modelith render --check" ""
          "routed domain-model Markdown matches its canonical YAML (anti-drift)"
          "re-run `modelith render` to refresh the drifted Markdown, or install modelith"
      ∷ starter "skillsaw-eval" "skillsaw eval --json" "json"
          "a skill scores against the 9-dimension rubric floor"
          "install skillsaw: go install github.com/StevenACoffman/skillsaw@latest"
      ∷ starter "exegesis-verify" "exegesis verify" ""
          "distilled skills pass the triple-validation gates and carry provenance"
          "install exegesis: go install github.com/StevenACoffman/exegesis@latest"
      ∷ []

-- What reading the file gives: the error of a file that is absent, its tools, or any other error.
pub data Stored (F : Type 0) : Type 0 where
  absent : Error → Stored F
  stored : List (Tool F) → Stored F
  unreadable : Error → Stored F

-- `Load`
unfoldable pub load : {F : Type 0} → Stored F → Result (List (Tool F))
load (absent e) = err (wrap "toolreg.Load" e)
load (stored tools) = ok tools
load (unreadable e) = err (wrap "toolreg.Load" e)

-- `LoadRepo`
unfoldable pub load_repo : {F : Type 0} → Stored F → Result (List (Tool F))
load_repo (absent e) = ok []
load_repo (stored tools) = load (stored tools)
load_repo (unreadable e) = load (unreadable e)
