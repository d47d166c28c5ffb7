-- ===== src/Critic/Reply/Laws.antt =====
-- What an accepted reply promises to the stages behind it.
use agentic_dev_harness.Shared.{
  ◌≡◌, inl, inr, true, false, Option, none, some, List, [], ◌∷◌, String, ◌==◌, All, Option-cases,
  Bool-cases, arith, trim_space, cut_at, cut_prefix,
}
use agentic_dev_harness.Adh.Error.{Error, Result, ok, err}
use agentic_dev_harness.Adh.Stage.{
  strategy, critic, Resolution, parse_resolution, resolution_valid,
  parse_resolution-resolution_text,
}
use agentic_dev_harness.Adh.Finding.{Finding, kind_valid, class_valid}
use agentic_dev_harness.Critic.Reply.{
  Decoder, Reply, finding_problem, first_problem, entry_problem, checked, decoded, parse_findings,
  parse_strategy_reply, parse_reply, critic_reply, strategy_reply, strategy_line,
}

-- What the code asks of a finding in a critic's reply.
pub record IsWellFormed (f : Finding) : Type 0 where
  pub summary : (trim_space f.summary == "") ≡ false
  pub kind : kind_valid f.kind ≡ true
  pub class : class_valid f.class ≡ true

finding_problem-none : (f : Finding) → finding_problem f ≡ none → IsWellFormed f
unfolding finding_problem
finding_problem-none f h = ground arith

first_problem-none {ℓ κ} :
    {A : Type ℓ} {P : A → Type κ} (problem : A → Option Error)
    → ((x : A) → problem x ≡ none → P x)
    → (xs : List A) → first_problem problem xs ≡ none
    → All P xs
unfolding first_problem
first_problem-none problem each [] h = tt
first_problem-none problem each (x ∷ xs) h = elim (Option-cases (problem x)) [
  | inl clear ↦ (each x clear, first_problem-none problem each xs (rw (clear, first_problem) at h))
  | inr (e, hit) ↦ absurd (ground (arith, hit))
]

module _ {U : Type 0} (d : Decoder U) where
  -- What an accepted list of findings and unexamined entries satisfies.
  pub record IsAccepted (findings : List Finding) (unexamined : List U) : Type 0 where
    pub findings_well_formed : All IsWellFormed findings
    pub entries_valid : All (λ u. d.valid u ≡ true) unexamined

  entry_problem-none : (u : U) → entry_problem d u ≡ none → d.valid u ≡ true
  unfolding entry_problem
  entry_problem-none u h = ground arith

  checked_ok :
      (fs : List Finding) (us : List U) (gs : List Finding) (vs : List U)
      → checked d (fs, us) ≡ ok (gs, vs)
      → (fs ≡ gs)
        × (us ≡ vs)
        × (first_problem finding_problem fs ≡ none)
        × (first_problem (entry_problem d) us ≡ none)
  checked_ok fs us gs vs h = ground arith

  decoded_ok :
      (parsed : Result (List Finding × List U)) (gs : List Finding) (vs : List U)
      → decoded d parsed ≡ ok (gs, vs)
      → IsAccepted gs vs
  decoded_ok (ok (fs, us)) gs vs h =
      let (same_fs, same_us, clear_fs, clear_us) = checked_ok fs us gs vs h in
      record {
        findings_well_formed =
            first_problem-none finding_problem finding_problem-none gs (rw same_fs at clear_fs);
        entries_valid =
            first_problem-none (entry_problem d) entry_problem-none vs (rw same_us at clear_us);
      }
  decoded_ok (err e) gs vs h = cc

  critic_reply_ok :
      (text : String) (parsed : Result (List Finding × List U)) (r : Reply U)
      → ((gs : List Finding) (vs : List U) → parsed ≡ ok (gs, vs) → IsAccepted gs vs)
      → critic_reply d text parsed ≡ ok r
      → IsAccepted r.findings r.unexamined × (r.text ≡ text) × (r.resolution ≡ Resolution.unset)
  critic_reply_ok text (ok (fs, us)) r accepted h =
      let same_fs : fs ≡ r.findings = cc in
      let same_us : us ≡ r.unexamined = cc in (accepted r.findings r.unexamined (cc), cc, cc)
  critic_reply_ok text (err e) r accepted h = cc

  -- An accepted critic reply is one whose findings each have a summary that is not blank, a known
  -- kind and a known class, and whose unexamined entries are all valid; its text is kept whole and
  -- it sets no resolution.
  pub parse_reply-critic :
      (text : String) (r : Reply U)
      → parse_reply d critic text ≡ ok r
      → IsAccepted r.findings r.unexamined × (r.text ≡ text) × (r.resolution ≡ Resolution.unset)
  unfolding parse_reply parse_findings
  parse_reply-critic text r h = elim (Bool-cases (trim_space text == "")) [
    | inl blank ↦ cc (rw (blank) at h)
    | inr some_text ↦
        critic_reply_ok text (decoded d (d.decode text)) r (decoded_ok (d.decode text))
          (rw (some_text) at h)
  ]

module _ {U : Type 0} where
  strategy_reply_ok :
      (rest : Option String) (res : Result Resolution) (r : Reply U)
      → strategy_reply rest res ≡ ok r
      → res ≡ ok r.resolution
  strategy_reply_ok rest (ok res) r h = cc
  strategy_reply_ok rest (err e) r h = cc

  strategy_line_ok :
      (rest after : Option String) (r : Reply U)
      → strategy_line rest after ≡ ok r
      → resolution_valid r.resolution ≡ true
  strategy_line_ok rest none r h = cc
  strategy_line_ok rest (some after) r h =
      ((parse_resolution-resolution_text (trim_space after) r.resolution).0
        (strategy_reply_ok rest (parse_resolution (trim_space after)) r h)).0

  -- An accepted strategy reply names one of the four resolutions: there is no default.
  pub parse_reply-strategy :
      (d : Decoder U) (text : String) (r : Reply U)
      → parse_reply d strategy text ≡ ok r
      → resolution_valid r.resolution ≡ true
  unfolding parse_reply parse_strategy_reply
  parse_reply-strategy d text r h = elim (Bool-cases (trim_space text == "")) [
    | inl blank ↦ cc (rw (blank) at h)
    | inr some_text ↦
        strategy_line_ok (cut_at b'\n' text).rest
          (cut_prefix "resolution:" (trim_space (cut_at b'\n' text).first)) r (rw (some_text) at h)
  ]
