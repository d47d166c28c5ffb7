-- ===== src/Judge.antt =====
-- internal/judge/judge.go: the rule judge, which scores an output against checks. Regular
-- expressions, lower case, `strconv` and floats are parameters.
pub mod Laws
use agentic_dev_harness.Shared.{
  ℕ, suc, ◌+◌, Bool, true, false, ◌&&◌, Option, none, some, List, [], ◌∷◌, map, String, ◌==◌,
  if◌then◌else◌, concat, any, length, is_empty, leb, eqb, trim_space, cut_prefix, contains, decimal,
  lines,
}
use agentic_dev_harness.Adh.Error.{Error, Result, ok, err, coded, invalid}
use agentic_dev_harness.Float.{Float}

-- `Op`; `other` is every text that is none of the six.
pub data Op : Type 0 where
  section_present regex contains_ max_chars min_chars tool_called : Op
  other : String → Op

-- `Check`
pub record Check : Type 0 where
  pub op : Op
  pub arg : String

-- What the judge calls of Go's library. A pattern compiles to a test or fails with a text; a
-- number parses to its sign (true if below 0) and its magnitude.
pub record Library : Type 0 where
  pub to_lower : String → String
  pub quote : String → String
  pub compile : String → Option (String → Bool)
  pub compile_error : String → String
  pub atoi : String → Option (Bool × ℕ)
  pub rune_count : String → ℕ

module _ (lib : Library) where
  open lib use {to_lower, quote, compile, compile_error, atoi, rune_count}

  abbrev outcome : Bool → String
  outcome ok_ = if ok_ then "pass" else "fail"

  -- `boolWhy`
  unfoldable pub bool_why : Bool → String → String → Bool × String
  bool_why ok_ op detail = (ok_, concat (op ∷ ": " ∷ outcome ok_ ∷ " " ∷ detail ∷ []))

  -- A line of `evalSectionPresent` that is a heading with the wanted text.
  unfoldable pub is_heading : String → String → Bool
  unfolding trim_space cut_prefix contains
  is_heading want line =
      let trimmed = trim_space line in
      elim (cut_prefix "#" trimmed) [ none ↦ false | some rest ↦ contains (to_lower trimmed) want ]

  -- `evalSectionPresent`
  unfoldable pub eval_section_present : String → String → Bool × String
  unfolding is_heading lines
  eval_section_present output arg =
      if any (is_heading (to_lower arg)) (lines output)
      then (true, concat ("section_present: found heading containing " ∷ quote arg ∷ []))
      else (false, concat ("section_present: no heading contains " ∷ quote arg ∷ []))

  abbrev matched : Option (String → Bool) → String → String → Bool × String
  matched none output arg =
      (false, concat ("regex: invalid pattern " ∷ quote arg ∷ ": " ∷ compile_error arg ∷ []))
  matched (some re) output arg =
      if re output
      then (true, concat ("regex: matched " ∷ quote arg ∷ []))
      else (false, concat ("regex: no match for " ∷ quote arg ∷ []))

  -- `evalRegex`
  unfoldable pub eval_regex : String → String → Bool × String
  eval_regex output arg = matched (compile arg) output arg

  -- `strconv.Itoa` of a limit
  abbrev itoa : Bool × ℕ → String
  itoa (true, n) = concat ("-" ∷ decimal n ∷ [])
  itoa (false, n) = decimal n

  -- `got <= limit` and `got >= limit`, where the limit may be below 0
  abbrev pub at_most : ℕ → Bool × ℕ → Bool
  at_most got (true, n) = eqb n 0 && eqb got 0
  at_most got (false, n) = leb got n

  abbrev pub at_least : ℕ → Bool × ℕ → Bool
  at_least got (true, n) = true
  at_least got (false, n) = leb n got

  abbrev measured : Option (Bool × ℕ) → ℕ → String → Bool → Bool × String
  measured none got arg at_most_ = (false, concat ("length: invalid arg " ∷ quote arg ∷ []))
  measured (some limit) got arg at_most_ =
      let detail = concat (itoa limit ∷ " (got " ∷ decimal got ∷ ")" ∷ []) in
      if at_most_
      then bool_why (at_most got limit) "max_chars" detail
      else bool_why (at_least got limit) "min_chars" detail

  -- `evalLen`
  unfoldable pub eval_len : String → String → Bool → Bool × String
  unfolding bool_why decimal
  eval_len output arg at_most_ = measured (atoi arg) (rune_count output) arg at_most_

  abbrev eval_op : Op → String → String → Bool × String
  eval_op section_present output arg = eval_section_present output arg
  eval_op regex output arg = eval_regex output arg
  eval_op contains_ output arg = bool_why (contains output arg) "contains" arg
  eval_op tool_called output arg = bool_why (contains output arg) "tool_called" arg
  eval_op max_chars output arg = eval_len output arg true
  eval_op min_chars output arg = eval_len output arg false
  eval_op (Op.other op) output arg = (false, concat ("unknown op " ∷ quote op ∷ []))

  -- `eval`
  unfoldable pub eval : Check → String → Bool × String
  unfolding eval_section_present eval_regex eval_len bool_why contains
  eval check output = eval_op check.op output check.arg

  module _ (float : Float) where
    open float use {F, zero, of_nat, div}

    -- `Result`
    pub record Score : Type 0 where
      pub hard : F
      pub soft : F
      pub why : List String

    -- The loop of `Score`: how many checks passed, and the reasons.
    unfoldable pub run_checks : String → List Check → ℕ × List String
    unfolding eval
    run_checks output [] = (0, [])
    run_checks output (check ∷ checks) =
        let (passed, why) = run_checks output checks in
        let (ok_, reason) = eval check output in (if ok_ then passed + 1 else passed, reason ∷ why)

    -- `Score`
    unfoldable pub score : String → List Check → Result Score
    unfolding run_checks
    score output checks =
        if is_empty checks
        then err (coded invalid "judge: no checks provided")
        else let (passed, why) = run_checks output checks in
          ok (record {
            hard = if eqb passed (length checks) then of_nat 1 else zero;
            soft = div (of_nat passed) (of_nat (length checks));
            why = why;
          })
