-- ===== src/Consolidate/Modes.antt =====
-- internal/consolidate/consolidate.go: the classes that recur, ranked, and the guidance made of them.
pub mod Laws
use agentic_dev_harness.Shared.{
  ℕ, ◌+◌, ◌-◌, Bool, true, false, not, ◌&&◌, Option, none, some, List, [], ◌∷◌, ◌++◌, String, ◌==◌,
  if◌then◌else◌, any, filter, map, length, concat, ltb, leb, eqb, is_empty, str_lt, sort_by, lookup,
  insert, decimal,
}
use agentic_dev_harness.Shared.Order.{by_number}
use agentic_dev_harness.Lesson.{Lesson, distill}
use agentic_dev_harness.Consolidate.Signals.{Signal, collect_failures, collect_successes}
use agentic_dev_harness.Float.{Float}

-- `ModeKind`
pub data ModeKind : Type 0 where
  failure success : ModeKind

abbrev pub kind_text : ModeKind → String
kind_text failure = "failure"
kind_text success = "success"

-- `Mode`
pub record Mode : Type 0 where
  pub class : String
  pub kind : ModeKind
  pub count : ℕ

-- `Reflection`
pub record Reflection : Type 0 where
  pub failures : List Mode
  pub successes : List Mode

-- The order of `sort.SliceStable` in `modesFrom`.
abbrev pub mode_before : Mode → Mode → Bool
mode_before = by_number (λ m. m.count) (λ a b. str_lt a.class b.class)

abbrev pub mode_of : ModeKind → Lesson → Mode
mode_of kind l = record { class = l.class; kind = kind; count = length l.instances }

-- `modesFrom`
unfoldable pub modes_from : List String → ModeKind → List Mode
unfolding distill
modes_from items kind = sort_by mode_before (map (mode_of kind) (distill items))

-- `inFailure[class]`
abbrev pub in_modes : List Mode → String → Bool
in_modes modes class = any (λ m. m.class == class) modes

-- `Reflect`
unfoldable pub reflect : List Signal → Reflection
unfolding modes_from
reflect signals =
    let failures = modes_from (collect_failures signals) failure in
    record {
      failures = failures;
      successes =
          filter (λ m. not (in_modes failures m.class))
            (modes_from (collect_successes signals) success);
    }

-- `effectiveBudget`, for an edit budget and a round that are not negative
unfoldable pub effective_budget : ℕ → ℕ → ℕ
effective_budget edit_budget round =
    if eqb edit_budget 0
    then edit_budget
    else if ltb 1 (edit_budget - round)
    then edit_budget - round
    else 1

abbrev pub bullet : String → Mode → String
bullet lead m = concat (lead ∷ m.class ∷ "\n" ∷ [])

-- The closure `render` of `Propose`: the text that it writes, and the count `used` after it.
unfoldable pub render : ℕ → String → List Mode → ℕ → String × ℕ
render budget lead [] used = ("", used)
render budget lead (m ∷ modes) used =
    let (text, after) = render budget lead modes (used + 1) in
    if ltb 0 budget && leb budget used
    then ("", used)
    else (concat (bullet lead m ∷ text ∷ []), after)

-- `Propose`
unfoldable pub propose : List Signal → ℕ → ℕ → String
unfolding reflect effective_budget render
propose signals edit_budget round =
    let reflection = reflect signals in
    let budget = effective_budget edit_budget round in
    let (guards, used) = render budget "- Guard against: " reflection.failures 0 in
    let (keeps, _) = render budget "- Keep doing: " reflection.successes used in
    concat (guards ∷ keeps ∷ [])

abbrev counted : Mode → String
counted m = concat ("- " ∷ m.class ∷ " (x" ∷ decimal m.count ∷ ")\n" ∷ [])

-- `writeModes`
unfoldable pub write_modes : List Mode → String
unfolding decimal
write_modes modes = if is_empty modes then "- (none)\n" else concat (map counted modes)

abbrev count_or_zero : Option ℕ → ℕ
count_or_zero none = 0
count_or_zero (some n) = n

-- The inner loop of `arcClassCounts`.
unfoldable pub count_classes : List Lesson → List (String × ℕ) → List (String × ℕ)
unfolding lookup insert
count_classes [] counts = counts
count_classes (l ∷ lessons) counts =
    count_classes lessons (insert l.class (count_or_zero (lookup l.class counts) + 1) counts)

-- `arcClassCounts`
unfoldable pub arc_class_counts :
    List Signal → (Signal → List String) → List (String × ℕ) → List (String × ℕ)
unfolding count_classes distill
arc_class_counts [] lines counts = counts
arc_class_counts (s ∷ signals) lines counts =
    arc_class_counts signals lines (count_classes (distill (lines s)) counts)

module _ (float : Float) where
  open float use {F, of_nat, div, lt, eq}

  -- `CommonClass`
  pub record CommonClass : Type 0 where
    pub class : String
    pub kind : ModeKind
    pub coverage : F

  -- `appendCommon`
  unfoldable pub append_common :
      List CommonClass → List (String × ℕ) → ModeKind → ℕ → F → List CommonClass
  append_common out [] kind total min_coverage = out
  append_common out ((class, n) ∷ counts) kind total min_coverage =
      let coverage = div (of_nat n) (of_nat total) in
      append_common
        (if lt min_coverage coverage
          then out ++ record { class = class; kind = kind; coverage = coverage } ∷ []
          else out)
        counts kind total min_coverage

  abbrev common_before : CommonClass → CommonClass → Bool
  common_before a b =
      if not (eq a.coverage b.coverage)
      then lt b.coverage a.coverage
      else if not (kind_text a.kind == kind_text b.kind)
      then str_lt (kind_text a.kind) (kind_text b.kind)
      else str_lt a.class b.class

  -- `CommonClasses`
  unfoldable pub common_classes : List Signal → F → List CommonClass
  unfolding arc_class_counts append_common
  common_classes signals min_coverage =
      if is_empty signals
      then []
      else let total = length signals in
        let failures =
          append_common [] (arc_class_counts signals (λ s. s.failures) []) failure total
            min_coverage in
        sort_by common_before (
          append_common failures (arc_class_counts signals (λ s. s.successes) []) success total
            min_coverage)
