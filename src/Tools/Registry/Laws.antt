-- ===== src/Tools/Registry/Laws.antt =====
-- When the registry of tools is valid.
use agentic_dev_harness.Shared.{
  ◌≡◌, refl, ◌↔◌, ◌≢◌, ◌⊎◌, inl, inr, true, false, none, List, [], ◌∷◌, map, String, ◌==◌, eq_iff,
  arith, All, has, Bool-cases, is_empty,
}
use agentic_dev_harness.Adh.Error.{switch}
use agentic_dev_harness.Adh.Finding.{Kind, kind_valid}
use agentic_dev_harness.Adh.Kpi.{Kpi, kpi_valid}
use agentic_dev_harness.Adh.Registry.{validate_from-Distinct, Distinct, or_else, or_else-none}
use agentic_dev_harness.Tools.Registry.{
  Tool, command_form_problem, shape_problem, kind_problem, kpi_problem, problem, validate,
}

kind_problem-All :
    (id : String) (kinds : List Kind)
    → (kind_problem id kinds ≡ none) ↔ All (λ k. kind_valid k ≡ true) kinds
unfolding kind_problem
kind_problem-All id [] = (λ h. tt, λ h. refl)
kind_problem-All id (kind ∷ kinds) = ground (arith, kind_problem-All id kinds)

module _ {F : Type 0} where
  -- A shell script and nothing else, or a command, which may have arguments.
  abbrev pub HasForm : Tool F → Type 0
  HasForm tool =
      ((tool.run ≢ "") × (tool.command ≡ "") × (is_empty tool.args ≡ true))
      ⊎ ((tool.run ≡ "") × (tool.command ≢ ""))

  command_form_problem-HasForm : (tool : Tool F) → (command_form_problem tool ≡ "") ↔ HasForm tool
  unfolding command_form_problem
  command_form_problem-HasForm tool =
      let runs = eq_iff tool.run "" in
      let commands = eq_iff tool.command "" in
      elim (Bool-cases (tool.run == "")) [
        | inl r ↦ rw r (elim (Bool-cases (tool.command == "")) [
          | inl c ↦ rw c (λ h. cc, λ h. ground (arith, h, runs, commands, r, c))
          | inr c ↦ rw c (λ h. ground (arith, runs, commands, r, c), λ h. refl)
        ])
        | inr r ↦ rw r (elim (Bool-cases (tool.command == "")) [
          | inl c ↦ rw c (elim (Bool-cases (is_empty tool.args)) [
            | inl a ↦ rw a (λ h. ground (arith, runs, commands, r, c, a), λ h. refl)
            | inr a ↦ rw a (λ h. cc, λ h. ground (arith, h, runs, commands, r, c, a))
          ])
          | inr c ↦ rw c (λ h. cc, λ h. ground (arith, h, runs, commands, r, c))
        ])
      ]

  kpi_problem-All :
      (id : String) (kpis : List (Kpi F))
      → (kpi_problem id kpis ≡ none) ↔ All (λ k. kpi_valid k ≡ true) kpis
  unfolding kpi_problem
  kpi_problem-All id [] = (λ h. tt, λ h. refl)
  kpi_problem-All id (kpi ∷ kpis) = ground (arith, kpi_problem-All id kpis)

  -- A tool that is named, has one form of command, says what it verifies, and whose kinds of finding
  -- and performance indicators are known.
  abbrev pub IsWhole : Tool F → Type 0
  IsWhole tool =
      (tool.id ≢ "")
      × HasForm tool
      × (tool.verifies ≢ "")
      × All (λ k. kind_valid k ≡ true) tool.adjudicates
      × All (λ k. kpi_valid k ≡ true) tool.kpis

  shape_problem-HasForm :
      (seen : List String) (tool : Tool F)
      → (shape_problem seen tool ≡ none) ↔ (
          (tool.id ≢ "")
          × (command_form_problem tool ≡ "")
          × (tool.verifies ≢ "")
          × (has tool.id seen ≡ false))
  unfolding shape_problem switch
  shape_problem-HasForm seen tool =
      ground
        (arith, eq_iff tool.id "", eq_iff tool.verifies "", eq_iff (command_form_problem tool) "")

  problem-IsWhole :
      (seen : List String) (tool : Tool F)
      → (problem seen tool ≡ none) ↔ (IsWhole tool × (has tool.id seen ≡ false))
  unfolding problem
  problem-IsWhole seen tool =
      let (split, join) =
        or_else-none (shape_problem seen tool)
          (or_else (kind_problem tool.id tool.adjudicates) (kpi_problem tool.id tool.kpis)) in
      let (split', join') =
        or_else-none (kind_problem tool.id tool.adjudicates) (kpi_problem tool.id tool.kpis) in
      let (shape, shape') = shape_problem-HasForm seen tool in
      let (form, form') = command_form_problem-HasForm tool in
      let (kinds, kinds') = kind_problem-All tool.id tool.adjudicates in
      let (kpis, kpis') = kpi_problem-All tool.id tool.kpis in
      (
        λ h.
            let (first, later) = split h in
            let (i, f, v, s) = shape first in
            let (k, p) = split' later in ((i, form f, v, kinds k, kpis p), s),
        λ h.
            let ((i, f, v, k, p), s) = h in
            join (shape' (i, form' f, v, s), join' (kinds' k, kpis' p)),
      )

  -- A registry of tools is valid exactly if every tool has an id, declares one form of command and
  -- what it verifies, adjudicates only known kinds of finding and has well-formed indicators, and no
  -- id stands twice.
  pub validate-tools_iff :
      (tools : List (Tool F))
      → (validate tools ≡ none) ↔ (All IsWhole tools × Distinct (map (λ tool. tool.id) tools))
  unfolding validate
  validate-tools_iff tools =
      validate_from-Distinct (λ tool. tool.id) problem IsWhole problem-IsWhole tools
