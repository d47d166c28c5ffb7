-- ===== src/Critic/Reply.antt =====
-- internal/critic/reply.go and `ParseFindings` of disposition.go: reading a model's reply at a
-- stage. Decoding JSON and quoting a text are `encoding/json` and `strconv`; with the entries that
-- a critic declares unexamined, which are a library's type, they are the parameter `Decoder`.
pub mod Laws
use agentic_dev_harness.Shared.{
  Bool, true, false, not, Option, none, some, List, [], ◌∷◌, String, ◌==◌, if◌then◌else◌, concat,
  trim_space, cut_prefix, cut_at, Cut,
}
use agentic_dev_harness.Adh.Error.{Error, Result, ok, err, ◌>>=◌, coded, wrap, invalid, error_text}
use agentic_dev_harness.Adh.Stage.{Stage, strategy, critic, Resolution, parse_resolution}
use agentic_dev_harness.Adh.Finding.{
  Finding, Kind, Class, kind_valid, class_valid, kind_text, class_text,
}

pub record Decoder (U : Type 0) : Type 0 where
  pub decode : String → Result (List Finding × List U)
  pub valid : U → Bool
  pub aspect : U → String
  pub reason : U → String
  pub quote : String → String

pub record Reply (U : Type 0) : Type 0 where
  pub findings : List Finding
  pub resolution : Resolution
  pub text : String
  pub unexamined : List U

-- One round of the loop of `ParseFindings` over the findings; `none` goes on.
unfoldable pub finding_problem : Finding → Option Error
unfolding kind_valid class_valid kind_text class_text
finding_problem f =
    if trim_space f.summary == ""
    then some (coded invalid "finding is missing a summary")
    else if not (kind_valid f.kind)
    then some (coded invalid (concat ("finding names an unknown kind: " ∷ kind_text f.kind ∷ [])))
    else if not (class_valid f.class)
    then some
        (coded invalid (concat ("finding names an unknown class: " ∷ class_text f.class ∷ [])))
    else none

-- The first problem of a list, as the loops over it return it.
unfoldable pub first_problem {ℓ} : {A : Type ℓ} → (A → Option Error) → List A → Option Error
first_problem problem [] = none
first_problem problem (x ∷ xs) =
    let rest = first_problem problem xs in elim (problem x) [ none ↦ rest | some e ↦ some e ]

-- `if err != nil { return ..., err }`
abbrev pub unless {ℓ} : {A : Type ℓ} → Option Error → Result A → Result A
unless none rest = rest
unless (some e) rest = err e

module _ {U : Type 0} (d : Decoder U) where
  unfoldable pub entry_problem : U → Option Error
  entry_problem u =
      if d.valid u
      then none
      else some (
          coded invalid (
            concat (
              "unexamined entry needs both an aspect and a reason; got aspect="
              ∷ d.quote (d.aspect u)
              ∷ " reason="
              ∷ d.quote (d.reason u)
              ∷ [])))

  abbrev pub checked : List Finding × List U → Result (List Finding × List U)
  checked (findings, unexamined) =
      unless (first_problem finding_problem findings)
        (unless (first_problem entry_problem unexamined) (ok (findings, unexamined)))

  abbrev pub decoded : Result (List Finding × List U) → Result (List Finding × List U)
  decoded (ok parsed) = checked parsed
  decoded (err e) =
      err (coded invalid (concat ("critic reply is not findings JSON: " ∷ error_text e ∷ [])))

  -- `ParseFindings`
  unfoldable pub parse_findings : String → Result (List Finding × List U)
  unfolding first_problem finding_problem entry_problem
  parse_findings reply = decoded (d.decode reply)

abbrev pub plan_text : Option String → String
plan_text none = ""
plan_text (some rest) = trim_space rest

module _ {U : Type 0} where
  abbrev pub strategy_reply : Option String → Result Resolution → Result (Reply U)
  strategy_reply rest (ok res) =
      ok (record { findings = []; resolution = res; text = plan_text rest; unexamined = [] })
  strategy_reply rest (err e) = err (wrap "critic.parseStrategyReply" e)

  abbrev pub strategy_line : Option String → Option String → Result (Reply U)
  strategy_line rest none = err (
      coded invalid
        "strategy reply must begin with `resolution: <change|investigation|experiment|decision>`")
  strategy_line rest (some after) = strategy_reply rest (parse_resolution (trim_space after))

  -- `parseStrategyReply`
  unfoldable pub parse_strategy_reply : String → Result (Reply U)
  unfolding parse_resolution trim_space cut_prefix cut_at
  parse_strategy_reply text =
      let cut = cut_at b'\n' text in
      strategy_line cut.rest (cut_prefix "resolution:" (trim_space cut.first))

module _ {U : Type 0} (d : Decoder U) where
  abbrev pub critic_reply : String → Result (List Finding × List U) → Result (Reply U)
  critic_reply text (ok (findings, unexamined)) = ok (record {
    findings = findings;
    resolution = Resolution.unset;
    text = text;
    unexamined = unexamined;
  })
  critic_reply text (err e) = err e

  abbrev pub reply_at : Stage → String → Result (Reply U)
  reply_at critic text = critic_reply text (parse_findings d text)
  reply_at strategy text = parse_strategy_reply text
  reply_at _ text =
      ok (record { findings = []; resolution = Resolution.unset; text = text; unexamined = [] })

  -- `ParseReply`
  unfoldable pub parse_reply : Stage → String → Result (Reply U)
  unfolding parse_strategy_reply parse_findings trim_space
  parse_reply stage text =
      if trim_space text == "" then err (coded invalid "empty relay reply") else reply_at stage text
