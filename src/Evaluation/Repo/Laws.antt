-- ===== src/Evaluation/Repo/Laws.antt =====
-- What an adjudicated finding says of the repository.
use mathlib.Core.Path.{subst}
use agentic_dev_harness.Shared.{
  ◌≡◌, refl, sym, ap, ◌∙◌, ◌≢◌, ◌⊎◌, inl, inr, Bool, true, false, Option, none, some, All, arith,
}
use agentic_dev_harness.Adh.Error.{Result, ok, ok_injective}
use agentic_dev_harness.Adh.Finding.{
  Finding, Kind, oracle, invariant, device, nfr, contract, Unrunnable, no_ref, unknown_ref,
  tool_failed, trustworthy,
}
use agentic_dev_harness.Float.{Float}
use agentic_dev_harness.Nfr.{Spec, meets}
use agentic_dev_harness.Critic.Disposition.{Adjudicated}
use agentic_dev_harness.Oracle.Agreement.{IsRectangular}
use agentic_dev_harness.Tools.Registry.{Tool, invocation}
use agentic_dev_harness.Tools.Runs.{Log}
use agentic_dev_harness.Evaluation.Repo.{
  CheckRunner, Repo, did_run, did_not_run, of_run, of_measure, of_packet, builtin_oracle,
  builtin_invariant, builtin_device, mock_validate, repo_at, adjudicate_why,
}
use agentic_dev_harness.Evaluation.Repo.Cases.{
  IsDeclared, ByTool, IsMetered, ByMeter, ByPacket, Idle, builtin_oracle_passes,
  builtin_invariant_passes, or_builtin_cases, nfr_cases, contract_cases,
}

of_run-failed :
    (F : Type 0) (f : Finding) (p : Bool × Bool)
    → (of_run {F = F} f p).failed ≡ true
    → p ≡ (false, true)
of_run-failed F f (false, true) h = refl
of_run-failed F f (true, true) h = absurd (ground (arith, h))
of_run-failed F f (passed, false) h = absurd (ground (arith, h))

of_run-refused :
    (F : Type 0) (f : Finding) (p : Bool × Bool)
    → trustworthy (of_run {F = F} f p).unrunnable ≡ true
    → p.1 ≡ false
unfolding trustworthy
of_run-refused F f (passed, true) h = absurd (ground (arith, h))
of_run-refused F f (passed, false) h = refl

module _ (float : Float) (repo : Repo float.F) where
  open float use {F}

  -- A packet that is missing, or does not verify.
  abbrev pub IsBroken : Option repo.Packet → Type 0
  IsBroken none = Unit
  IsBroken (some packet) = repo.verifies packet ≡ false

  abbrev Origin : Finding → Adjudicated F → Type 0
  Origin f r =
      Idle float repo f r
      ⊎ (r ≡ did_run f false)
      ⊎ ByTool float repo f r
      ⊎ ByMeter float repo f r
      ⊎ ByPacket float repo f r

  builtin-Origin :
      (f : Finding) (failed : Bool) (r : Adjudicated F)
      → failed ≡ false
      → ByTool float repo f r ⊎ (◌≡◌ {A = Result (Adjudicated F)} (ok (did_run f failed)) (ok r))
      → Origin f r
  builtin-Origin f failed r e (inl tool) = inr (inr (inl tool))
  builtin-Origin f failed r e (inr same) = inr (inl (sym (ok_injective same) ∙ ap (did_run f) e))

  why_cases :
      (f : Finding) (log : Log) (r : Adjudicated F)
      → All IsRectangular repo.boards
      → (adjudicate_why float repo f log).0 ≡ ok r
      → Origin f r
  unfolding adjudicate_why builtin_device mock_validate
  why_cases f log r rect h = at f.kind refl h
    where
      at : (k : Kind) → f.kind ≡ k → (repo_at float repo k f log).0 ≡ ok r → Origin f r
      at oracle e h =
          builtin-Origin f (builtin_oracle float repo) r (builtin_oracle_passes float repo rect)
            (or_builtin_cases float repo rect f log _ r h)
      at invariant e h =
          builtin-Origin f (builtin_invariant float repo) r
            (builtin_invariant_passes float repo rect)
            (or_builtin_cases float repo rect f log _ r h)
      at device e h = builtin-Origin f false r refl (or_builtin_cases float repo rect f log _ r h)
      at contract e h = subst (Origin f) (ok_injective h) (elim (contract_cases float repo f e) [
        | inl idle ↦ inl idle
        | inr packet ↦ inr (inr (inr (inr packet)))
      ])
      at nfr e h = subst (Origin f) (ok_injective h) (elim (nfr_cases float repo f log) [
        | inl idle ↦ inl idle
        | inr (inl tool) ↦ inr (inr (inl tool))
        | inr (inr meter) ↦ inr (inr (inr (inl meter)))
      ])
      at (Kind.other s) e h = inl (unknown_ref, (λ k. cc), sym (ok_injective h))

  metered_failed :
      (f : Finding) (spec : Spec F) (m : Option F)
      → (of_measure float repo f spec m).failed ≡ true
      → (value : F) × (m ≡ some value) × (meets float spec value ≡ false)
  metered_failed f spec none h = absurd (ground (arith, h))
  metered_failed f spec (some value) h = (value, refl, ground (arith, h))

  packet_failed :
      (f : Finding) (packet : Option repo.Packet)
      → (of_packet float repo f packet).failed ≡ true
      → IsBroken packet
  packet_failed f none h = tt
  packet_failed f (some packet) h = ground (arith, h)

  -- A finding is confirmed only by an artifact of the repository: by a declared tool that it names,
  -- which ran and did not pass; by a value that the declared meter of a spec it names measured and
  -- that does not meet the spec; or, for a contract, by the proof packet that it names, which is
  -- missing or does not verify. The built-in checks confirm none, where their boards are rectangular.
  pub confirmed_by_artifact :
      (f : Finding) (log : Log) (r : Adjudicated F)
      → All IsRectangular repo.boards
      → (adjudicate_why float repo f log).0 ≡ ok r
      → r.failed ≡ true
      → ((runner : CheckRunner F) × (tool : Tool F) × IsDeclared float repo f runner tool
          × (runner.run_check (invocation tool) ≡ (false, true)))
        ⊎ ((spec : Spec F) × (runner : CheckRunner F) × (tool : Tool F) × (value : F) × IsMetered
              float repo f spec runner tool
            × (runner.measure (invocation tool) ≡ some value)
            × (meets float spec value ≡ false))
        ⊎ ((f.kind ≡ contract) × (f.ref ≢ "") × IsBroken (repo.load_packet f.ref))
  confirmed_by_artifact f log r rect h failed = elim (why_cases f log r rect h) [
    | inl (why, _, e) ↦ absurd (ground (arith, sym (ap (λ x. x.failed) e) ∙ failed))
    | inr (inl e) ↦ absurd (ground (arith, sym (ap (λ x. x.failed) e) ∙ failed))
    | inr (inr (inl (runner, tool, declared, e))) ↦ inl (
      runner,
      tool,
      declared,
      of_run-failed F f (runner.run_check (invocation tool)) (sym (ap (λ x. x.failed) e) ∙ failed),
    )
    | inr (inr (inr (inl (spec, runner, tool, metered, e)))) ↦
        let (value, at, breached) =
          metered_failed f spec (runner.measure (invocation tool))
            (sym (ap (λ x. x.failed) e) ∙ failed) in
        inr (inl (spec, runner, tool, value, metered, at, breached))
    | inr (inr (inr (inr (kind, named, e)))) ↦ inr (
        inr (
          kind,
          named,
          packet_failed f (repo.load_packet f.ref) (sym (ap (λ x. x.failed) e) ∙ failed),
        ))
  ]

  metered_refused :
      (f : Finding) (spec : Spec F) (m : Option F)
      → trustworthy (of_measure float repo f spec m).unrunnable ≡ true
      → m ≡ none
  unfolding trustworthy
  metered_refused f spec none h = refl
  metered_refused f spec (some value) h = absurd (ground (arith, h))

  packet_trusted :
      (f : Finding) (packet : Option repo.Packet)
      → trustworthy (of_packet float repo f packet).unrunnable ≡ false
  unfolding trustworthy
  packet_trusted f none = refl
  packet_trusted f (some packet) = refl

  idle_trusted : (why : Unrunnable) → why ≢ tool_failed → trustworthy why ≡ false
  unfolding trustworthy
  idle_trusted Unrunnable.unset h = refl
  idle_trusted no_ref h = refl
  idle_trusted unknown_ref h = refl
  idle_trusted tool_failed h = absurd (h refl)

  -- Where all boards are rectangular, a trustworthy refusal says something of the repository: a
  -- declared tool that the finding names did not start, or the declared meter of a spec that it names gave no measurement.
  pub refused_by_tool :
      (f : Finding) (log : Log) (r : Adjudicated F)
      → All IsRectangular repo.boards
      → (adjudicate_why float repo f log).0 ≡ ok r
      → trustworthy r.unrunnable ≡ true
      → ((runner : CheckRunner F) × (tool : Tool F) × IsDeclared float repo f runner tool
          × ((runner.run_check (invocation tool)).1 ≡ false))
        ⊎ ((spec : Spec F) × (runner : CheckRunner F) × (tool : Tool F) × IsMetered float repo f
              spec runner tool
            × (runner.measure (invocation tool) ≡ none))
  unfolding trustworthy
  refused_by_tool f log r rect h trusted =
      let via = λ (x : Adjudicated F) (e : r ≡ x).
        sym (ap (λ (y : Adjudicated F). trustworthy y.unrunnable) e) ∙ trusted in
      elim (why_cases f log r rect h) [
        | inl (why, idle, e) ↦
            absurd (ground (arith, via (did_not_run f why) e, idle_trusted why idle))
        | inr (inl e) ↦ absurd (ground (arith, via (did_run f false) e))
        | inr (inr (inl (runner, tool, declared, e))) ↦ inl (
          runner,
          tool,
          declared,
          of_run-refused F f (runner.run_check (invocation tool)) (via _ e),
        )
        | inr (inr (inr (inl (spec, runner, tool, metered, e)))) ↦ inr (
          spec,
          runner,
          tool,
          metered,
          metered_refused f spec (runner.measure (invocation tool)) (via _ e),
        )
        | inr (inr (inr (inr (kind, named, e)))) ↦ absurd (
            ground (
              arith,
              via (of_packet float repo f (repo.load_packet f.ref)) e,
              packet_trusted f (repo.load_packet f.ref),
            ))
      ]
