-- ===== src/Evaluation/Adjudicate.antt =====
-- internal/evaluation: the guards that every change is held to, and running the artifact of each
-- finding. An adjudicator is an interface, which Repo fills.
use agentic_dev_harness.Shared.{Bool, false, Option, none, some, List, [], ◌∷◌, ◌++◌, map, concat}
use agentic_dev_harness.Adh.Error.{Result, ok, err, ◌>>=◌, context}
use agentic_dev_harness.Adh.Finding.{Finding, nfr, fixable, kind_text, Unrunnable}
use agentic_dev_harness.Critic.Disposition.{Adjudicated, Verdict, dispose}
use agentic_dev_harness.Nfr.{Spec, guards}

-- `Adjudicator`, with the method `AdjudicateWhy` that some implementations have as well
pub record Adjudicator (F : Type 0) : Type 0 where
  pub why : Option (Finding → Result (Adjudicated F))
  pub adjudicate : Finding → Result (Bool × Bool)

-- `fmt.Errorf("adjudicate %s: %w", finding.Kind, err)`
abbrev adjudicate_error {ℓ} : {A : Type ℓ} → Finding → Result A → Result A
adjudicate_error f (ok a) = ok a
adjudicate_error f (err e) = err (context (concat ("adjudicate " ∷ kind_text f.kind ∷ [])) e)

abbrev pub labelled {ℓ} : {A : Type ℓ} → Finding → Result A → Result A
labelled f (ok a) = ok a
labelled f (err e) = err (context (concat ("adjudicating " ∷ kind_text f.kind ∷ " finding" ∷ [])) e)

module _ {F : Type 0} where
  abbrev guard_finding : Spec F → Finding
  guard_finding g = record {
    summary =
        concat ("guard " ∷ g.id ∷ " (" ∷ g.tag ∷ ") must not be breached by this change" ∷ []);
    kind = nfr;
    ref = g.id;
    class = fixable;
  }

  -- `GuardFindings`
  unfoldable pub guard_findings : List (Spec F) → List Finding
  unfolding guards
  guard_findings specs = map guard_finding (guards specs)

  abbrev plain : Finding → Bool × Bool → Adjudicated F
  plain f (ran, failed) = record {
    finding = f;
    ran = ran;
    failed = failed;
    unrunnable = Unrunnable.unset;
    measured = none;
    regressed = false;
  }

  abbrev by_method :
      Option (Finding → Result (Adjudicated F)) → Adjudicator F → Finding → Result (Adjudicated F)
  by_method (some why) adj f = adjudicate_error f (why f)
  by_method none adj f = adjudicate_error f (adj.adjudicate f >>= λ r. ok (plain f r))

  -- `adjudicateOne`
  unfoldable pub adjudicate_one : Adjudicator F → Finding → Result (Adjudicated F)
  unfolding kind_text
  adjudicate_one adj f = by_method adj.why adj f

  -- The loop of `Adjudicate`.
  unfoldable pub adjudicate_all : Adjudicator F → List Finding → Result (List (Adjudicated F))
  unfolding adjudicate_one
  adjudicate_all adj [] = ok []
  adjudicate_all adj (f ∷ fs) =
      labelled f (adjudicate_one adj f) >>= λ r. adjudicate_all adj fs >>= λ rs. ok (r ∷ rs)

  -- `Adjudicate`
  unfoldable pub adjudicate : Adjudicator F → List (Spec F) → List Finding → Result Verdict
  unfolding adjudicate_all guard_findings dispose
  adjudicate adj specs findings =
      adjudicate_all adj (guard_findings specs ++ findings) >>= λ results. ok (dispose results)
