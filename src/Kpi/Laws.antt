-- ===== src/Kpi/Laws.antt =====
-- Which proposals are made.
use mathlib.Core.List.Memᴰ
use mathlib.Core.List.{Memᴰ}
use mathlib.Core.Path.{subst}
use agentic_dev_harness.Shared.{
  none_not_some, some_inj, ℕ, ◌≤◌, ◌≡◌, refl, sym, ap, ◌∙◌, ◌↔◌, inl, inr, true, Bool-cases,
  Option-cases, some, List, arith, ◌&&◌, leb, concat_map, Memᴰ-sort_by, Memᴰ-of_sort_by,
  Memᴰ-concat_map,
}
use agentic_dev_harness.Float.{Float}
use agentic_dev_harness.Adh.Kpi.{Kpi, breached}
use agentic_dev_harness.Kpi.{
  Observation, Subject, KpiProposal, find_observation, proposed, earned_by, by_subject, propose,
}

module _ (float : Float) (least : ℕ) where
  open float use {F}

  -- The proposal is what an indicator of the subject earned: its metric was observed, past its
  -- threshold, in enough strata.
  abbrev pub IsEarned : Subject F → Kpi F → KpiProposal F → Type 0
  IsEarned s kpi p =
      (o : Observation F) × (find_observation float kpi.metric s.observations ≡ some o)
      × (breached float kpi o.value ≡ true)
      × (least ≤ o.strata)
      × (p ≡ proposed float s kpi o)

  earned_by-IsEarned :
      (s : Subject F) (kpi : Kpi F) (p : KpiProposal F)
      → Memᴰ p (earned_by float least s kpi (find_observation float kpi.metric s.observations))
        ↔ IsEarned s kpi p
  unfolding earned_by
  earned_by-IsEarned s kpi p =
      elim (Option-cases (find_observation float kpi.metric s.observations)) [
        | inl e ↦ rw e (λ m. absurd (Memᴰ.not-nil m), λ h. absurd (none_not_some h.1))
        | inr found ↦
            let (o, e) = found in
            rw e (elim (Bool-cases (breached float kpi o.value && leb least o.strata)) [
              | inl b ↦ rw b (
                λ m. elim (Memᴰ.cases_cons m) [
                  | inl at ↦ (o, refl, ground (arith, b), ground (arith, b), at)
                  | inr later ↦ absurd (Memᴰ.not-nil later)
                ],
                λ h.
                    let (x, at, past, wide, made) = h in
                    Memᴰ.head (made ∙ ap (proposed float s kpi) (sym (some_inj at))),
              )
              | inr b ↦ rw b (
                λ m. absurd (Memᴰ.not-nil m),
                λ h.
                    let (x, at, past, wide, made) = h in
                    let passed =
                      subst (λ y. breached float kpi y.value ≡ true) (sym (some_inj at)) past in
                    let spans = subst (λ y. least ≤ y.strata) (sym (some_inj at)) wide in
                    absurd (ground (arith, b, passed, spans)),
              )
            ])
      ]

  -- A proposal is made exactly if some indicator of some subject earned it: the metric of the
  -- indicator was observed, the value has passed the threshold, and the breach spans enough strata.
  pub propose_iff :
      (subjects : List (Subject F)) (p : KpiProposal F)
      → Memᴰ p (propose float least subjects)
        ↔ ((s : Subject F) × Memᴰ s subjects × ((kpi : Kpi F) × Memᴰ kpi s.kpis × IsEarned s kpi p))
  unfolding propose
  propose_iff subjects p =
      let of_kpi = λ (s : Subject F) (k : Kpi F).
        earned_by float least s k (find_observation float k.metric s.observations) in
      let of_subject = λ (s : Subject F). concat_map (of_kpi s) s.kpis in
      let (to, from) = Memᴰ-concat_map of_subject subjects p in
      (
        λ m.
            let (s, ms, at) =
              to (Memᴰ-of_sort_by (by_subject float) (concat_map of_subject subjects) m) in
            let (k, mk, earned) = (Memᴰ-concat_map (of_kpi s) s.kpis p).0 at in
            (s, ms, (k, mk, (earned_by-IsEarned s k p).0 earned)),
        λ h.
            let (s, ms, (k, mk, earned)) = h in
            Memᴰ-sort_by (by_subject float) (concat_map of_subject subjects) (
              from (
                s,
                ms,
                (Memᴰ-concat_map (of_kpi s) s.kpis p).1
                    (k, mk, (earned_by-IsEarned s k p).1 earned),
              )),
      )
