-- ===== src/Consolidate/Plan/Laws.antt =====
-- What one cycle proposes, and on what grounds.
use Prim.Native.String.{len}
use agentic_dev_harness.Shared.{◌≡◌, ◌≢◌, true, false, List, [], map, ◌∷◌, String, has, trim_space}
use agentic_dev_harness.Adh.Arc.{Arc}
use agentic_dev_harness.Float.{Float}
use agentic_dev_harness.Judge.{Library}
use agentic_dev_harness.Evidence.{Evidence, baseline, keep}
use agentic_dev_harness.Consolidate.Region.{apply_learned}
use agentic_dev_harness.Consolidate.Scores.{Skillet, within_size_budget}
use agentic_dev_harness.Consolidate.Plan.{Config, Cycle, evidence}

module _ (lib : Library) (float : Float) (skillet : Skillet float) (fixed : float.F → String) where
  open float use {F}
  open skillet use {hash, rejects, evaluate}

  -- What `proposal` has checked of a candidate.
  pub record IsAdmissible (artifact learned : String) (rejected : List String)
      (cfg : Config lib float skillet fixed) (cand : String) : Type 0 where
    pub some_edit : trim_space learned ≢ ""
    pub edited : cand ≡ apply_learned artifact learned cfg.marker
    pub changed : hash artifact ≢ hash cand
    pub sized : within_size_budget lib float (len artifact) (len cand) cfg.size_ratio ≡ true
    pub unseen : has (hash cand) rejected ≡ false

  abbrev Run : Type 0
  Run = Cycle lib float skillet fixed

  -- What is said of a cycle that proposes an artifact: the candidate was admissible, the gate did not
  -- reject its score against that of the artifact, and it is staged under its hash and kept.
  pub record IsProposed (artifact learned : String) (rejected : List String)
      (cfg : Config lib float skillet fixed) (c : Run) : Type 0 where
    pub admissible : IsAdmissible artifact learned rejected cfg c.proposed
    pub accepted : rejects (evaluate c.candidate_score c.baseline_score c.baseline_score) ≡ false
    pub staged : c.staging_id ≡ hash c.proposed
    pub kept : map (λ (e : Evidence float). e.status) c.records ≡ keep ∷ []

  -- A cycle that proposes nothing, with a record of the baseline alone.
  abbrev pub IsQuiet : Run → Type 0
  IsQuiet c = (c.proposed ≡ "") × (map (λ (e : Evidence float). e.status) c.records ≡ baseline ∷ [])

  abbrev noted : Run → F → String → Run
  noted c base note = record c {
    records = evidence lib float skillet fixed c.decision base base baseline note;
  }
