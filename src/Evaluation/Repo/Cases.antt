-- ===== src/Evaluation/Repo/Cases.antt =====
-- Where the result of each artifact comes from.
use mathlib.Core.Path.{subst}
use agentic_dev_harness.Shared.{
  ◌≡◌, refl, sym, ap, ◌≢◌, ◌⊎◌, inl, inr, false, not, Option, none, some, List, [], ◌∷◌, ◌==◌, any,
  All, Bool-cases, some_inj, eq_iff, arith,
}
use agentic_dev_harness.Adh.Error.{Result, ok, ok_injective}
use agentic_dev_harness.Adh.Finding.{
  Finding, contract, Unrunnable, no_ref, unknown_ref, tool_failed,
}
use agentic_dev_harness.Float.{Float}
use agentic_dev_harness.Nfr.{Spec, by_id}
use agentic_dev_harness.Critic.Disposition.{Adjudicated}
use agentic_dev_harness.Oracle.Board.{Board, invariants_hold}
use agentic_dev_harness.Oracle.Native.{native}
use agentic_dev_harness.Oracle.Agreement.{react-Agrees, IsRectangular, Agrees}
use agentic_dev_harness.Tools.Registry.{Tool, find_by_id, invocation}
use agentic_dev_harness.Tools.Runs.{Log}
use agentic_dev_harness.Evaluation.Repo.{
  CheckRunner, Repo, did_not_run, of_measure, of_packet, by_meter, by_spec, or_unknown, with_runner,
  adjudicate_spec, of_run, run_found, run_declared_tool, builtin_oracle, builtin_invariant,
  or_builtin, adjudicate_contract, adjudicate_nfr,
}

module _ (float : Float) (repo : Repo float.F) where
  open float use {F}

  -- The tool that a finding names, which the repository declares and can run.
  pub record IsDeclared (f : Finding) (runner : CheckRunner F) (tool : Tool F) : Type 0 where
    pub named : find_by_id f.ref repo.checks ≡ some tool
    pub runs : repo.runner ≡ some runner

  -- A result that running the named tool gave.
  abbrev pub ByTool : Finding → Adjudicated F → Type 0
  ByTool f r =
      (runner : CheckRunner F) × (tool : Tool F) × IsDeclared f runner tool
      × (r ≡ of_run f (runner.run_check (invocation tool)))

  found_ByTool :
      (f : Finding) (runner : Option (CheckRunner F)) (tool : Option (Tool F)) (log log' : Log)
      (r : Adjudicated F)
      → repo.runner ≡ runner
      → find_by_id f.ref repo.checks ≡ tool
      → run_found float repo f runner tool log ≡ some (r, log')
      → ByTool f r
  found_ByTool f (some runner) (some tool) log log' r e n h = (
    runner,
    tool,
    record { named = n; runs = e },
    sym (ap (λ (x : Adjudicated F × Log). x.0) (some_inj h)),
  )
  found_ByTool f (some runner) none log log' r e n h = cc
  found_ByTool f none tool log log' r e n h = cc

  run_declared_tool-ByTool :
      (f : Finding) (log log' : Log) (r : Adjudicated F)
      → run_declared_tool float repo f log ≡ some (r, log')
      → ByTool f r
  unfolding run_declared_tool
  run_declared_tool-ByTool f log log' r h = elim (Bool-cases (f.ref == "")) [
    | inl e ↦ cc (e, h)
    | inr e ↦
        found_ByTool f repo.runner (find_by_id f.ref repo.checks) log log' r refl refl (rw e at h)
  ]

  module _ (rectangular : All IsRectangular repo.boards) where
    pub builtin_oracle_passes : builtin_oracle float repo ≡ false
    unfolding builtin_oracle
    builtin_oracle_passes = rw (react-Agrees repo.boards rectangular).1 refl

    invariants_pass :
        (boards : List Board)
        → All Agrees boards
        → any (λ board. not (invariants_hold board (native board))) boards ≡ false
    invariants_pass [] h = refl
    invariants_pass (board ∷ boards) h = rw h.0.native_holds (invariants_pass boards h.1)

    pub builtin_invariant_passes : builtin_invariant float repo ≡ false
    unfolding builtin_invariant
    builtin_invariant_passes = invariants_pass repo.boards (react-Agrees repo.boards rectangular).0

    pub or_builtin_cases :
        (f : Finding) (log : Log) (builtin : Result (Adjudicated F)) (r : Adjudicated F)
        → (or_builtin float repo (run_declared_tool float repo f log) builtin log).0 ≡ ok r
        → ByTool f r ⊎ (builtin ≡ ok r)
    or_builtin_cases f log builtin r h = split (run_declared_tool float repo f log) refl h
      where
        split :
            (found : Option (Adjudicated F × Log))
            → run_declared_tool float repo f log ≡ found
            → (or_builtin float repo found builtin log).0 ≡ ok r
            → ByTool f r ⊎ (builtin ≡ ok r)
        split none e h = inr h
        split (some (res, log')) e h =
            inl (subst (ByTool f) (ok_injective h) (run_declared_tool-ByTool f log log' res e))

  -- A result that measuring a spec by its declared meter gave.
  pub record IsMetered (f : Finding) (spec : Spec F) (runner : CheckRunner F) (tool : Tool F)
      : Type 0 where
    pub required : by_id repo.specs f.ref ≡ some spec
    pub metered : find_by_id spec.meter repo.checks ≡ some tool
    pub runs : repo.runner ≡ some runner

  abbrev pub ByMeter : Finding → Adjudicated F → Type 0
  ByMeter f r =
      (spec : Spec F) × (runner : CheckRunner F) × (tool : Tool F) × IsMetered f spec runner tool
      × (r ≡ of_measure float repo f spec (runner.measure (invocation tool)))

  -- A result of a finding that names a proof packet.
  abbrev pub ByPacket : Finding → Adjudicated F → Type 0
  ByPacket f r =
      (f.kind ≡ contract) × (f.ref ≢ "") × (r ≡ of_packet float repo f (repo.load_packet f.ref))

  -- The results that say nothing of the repository.
  abbrev pub Idle : Finding → Adjudicated F → Type 0
  Idle f r = (why : Unrunnable) × (why ≢ tool_failed) × (r ≡ did_not_run f why)

  spec-ByMeter :
      (f : Finding) (runner : CheckRunner F) (spec : Spec F)
      → repo.runner ≡ some runner
      → by_id repo.specs f.ref ≡ some spec
      → (tool : Option (Tool F)) → find_by_id spec.meter repo.checks ≡ tool
      → Idle f (by_meter float repo f runner spec tool)
        ⊎ ByMeter f (by_meter float repo f runner spec tool)
  spec-ByMeter f runner spec e s none n = inl (unknown_ref, (λ h. cc), refl)
  spec-ByMeter f runner spec e s (some tool) n =
      inr (spec, runner, tool, record { required = s; metered = n; runs = e }, refl)

  by_spec_cases :
      (f : Finding) (runner : CheckRunner F) (log : Log)
      → repo.runner ≡ some runner
      → (spec : Option (Spec F)) → by_id repo.specs f.ref ≡ spec
      → let r = (by_spec float repo f runner spec log).0 in Idle f r ⊎ ByTool f r ⊎ ByMeter f r
  unfolding adjudicate_spec
  by_spec_cases f runner log e (some spec) s =
      elim (spec-ByMeter f runner spec e s (find_by_id spec.meter repo.checks) refl) [
        | inl idle ↦ inl idle
        | inr metered ↦ inr (inr metered)
      ]
  by_spec_cases f runner log e none s = split (run_declared_tool float repo f log) refl
    where
      split :
          (found : Option (Adjudicated F × Log))
          → run_declared_tool float repo f log ≡ found
          → let r = (or_unknown float repo f found log).0 in Idle f r ⊎ ByTool f r ⊎ ByMeter f r
      split none h = inl (unknown_ref, (λ h. cc), refl)
      split (some (res, log')) h = inr (inl (run_declared_tool-ByTool f log log' res h))

  with_runner_cases :
      (f : Finding) (log : Log) (runner : Option (CheckRunner F))
      → repo.runner ≡ runner
      → let r = (with_runner float repo f runner log).0 in Idle f r ⊎ ByTool f r ⊎ ByMeter f r
  with_runner_cases f log none e = inl (no_ref, (λ h. cc), refl)
  with_runner_cases f log (some runner) e =
      by_spec_cases f runner log e (by_id repo.specs f.ref) refl

  pub nfr_cases :
      (f : Finding) (log : Log)
      → let r = (adjudicate_nfr float repo f log).0 in Idle f r ⊎ ByTool f r ⊎ ByMeter f r
  unfolding adjudicate_nfr
  nfr_cases f log = elim (Bool-cases (f.ref == "")) [
    | inl e ↦ rw e (inl (no_ref, (λ h. cc), refl))
    | inr e ↦ rw e (with_runner_cases f log repo.runner refl)
  ]

  pub contract_cases :
      (f : Finding)
      → f.kind ≡ contract
      → let r = adjudicate_contract float repo f in Idle f r ⊎ ByPacket f r
  unfolding adjudicate_contract
  contract_cases f k = elim (Bool-cases (f.ref == "")) [
    | inl e ↦ rw e (inl (no_ref, (λ h. cc), refl))
    | inr e ↦ rw e (inr (k, (λ h. ground (arith, e, h, eq_iff f.ref "")), refl))
  ]
