-- ===== src/Lesson.antt =====
-- internal/lesson/lesson.go: lessons distilled from failure notes, and their owners. Lower case and
-- `%q` are parameters.
pub mod Laws
use agentic_dev_harness.Shared.{
  ℕ, Bool, true, false, not, trim_right_of, Option, none, some, List, [], ◌∷◌, ◌++◌, map, String,
  ◌==◌, if◌then◌else◌, concat, length, leb, ◌&&◌, ◌||◌, trim_space, cut_at, Cut, lookup, insert,
  str_lt, sort_by, decimal,
}
use agentic_dev_harness.Adr
use Prim.Native.Char.{code}
use Prim.Native.String

-- `Owner`; `other` is every text that is none of the seven.
pub data Owner : Type 0 where
  context skill doc decision check invariant type_ : Owner
  other : String → Owner

-- `Lesson`
pub record Lesson : Type 0 where
  pub class : String
  pub instances : List String

-- `RequiresApproval`
unfoldable pub requires_approval : Owner → Bool
requires_approval check = true
requires_approval invariant = true
requires_approval type_ = true
requires_approval _ = false

-- `Valid`
unfoldable pub valid : Owner → Bool
valid (Owner.other s) = false
valid _ = true

-- `Materializes`
unfoldable pub materializes : Owner → Bool
materializes context = true
materializes doc = true
materializes decision = true
materializes _ = false

-- `Kind`
unfoldable pub kind : Owner → String
kind decision = "decision"
kind doc = "doc"
kind _ = "domain-note"

-- `writeInstances`
unfoldable pub write_instances : List String → String
write_instances [] = ""
write_instances (inst ∷ rest) = concat ("- " ∷ inst ∷ "\n" ∷ write_instances rest ∷ [])

abbrev guidance : Lesson → String
guidance l = concat (
    "# "
    ∷ l.class
    ∷ "\n\nAvoid this class of mistake ("
    ∷ decimal (length l.instances)
    ∷ " recorded):\n\n"
    ∷ write_instances l.instances
    ∷ [])

abbrev forced : (String → String) → Lesson → String
forced quote l = concat (
    "The "
    ∷ quote l.class
    ∷ " correction recurred ("
    ∷ decimal (length l.instances)
    ∷ " instances):\n\n"
    ∷ write_instances l.instances
    ∷ [])

-- `Render`
unfoldable pub render : (String → String) → Lesson → Owner → String
unfolding write_instances decimal Adr.render
render quote l decision = Adr.render l.class (forced quote l)
render quote l _ = guidance l

-- The loop of `Slug` over the text in lower case: whether something was written, and whether a dash
-- was last.
unfoldable pub slug_from : Bool → Bool → String → String
slug_from some_ dash String.[] = ""
slug_from some_ dash (String.◌∷◌ c s) =
    let written = slug_from true false s in
    let dashed = slug_from true true s in
    let skipped = slug_from some_ dash s in
    if (leb 97 (code c) && leb (code c) 122) || (leb 48 (code c) && leb (code c) 57)
    then String.◌∷◌ c written
    else if some_ && not dash
    then String.◌∷◌ "-" dashed
    else skipped

-- `Slug`
unfoldable pub slug : (String → String) → String → String
unfolding slug_from trim_right_of
slug to_lower class = trim_right_of 45 (slug_from false false (to_lower class))

-- The class of a failure note: what stands before its first colon, or all of it.
unfoldable pub class_of : String → String
unfolding cut_at trim_space
class_of note =
    let c = cut_at 58 note in elim c.rest [ none ↦ note | some rest ↦ trim_space c.first ]

abbrev pub notes_or_none : Option (List String) → List String
notes_or_none none = []
notes_or_none (some notes) = notes

-- `byClass[class] = append(byClass[class], f)`
unfoldable pub record_note : String → List (String × List String) → List (String × List String)
unfolding lookup insert class_of
record_note note by_class =
    insert (class_of note) (notes_or_none (lookup (class_of note) by_class) ++ note ∷ []) by_class

-- The loop of `Distill` over the map of notes by class.
unfoldable pub group : List (String × List String) → List String → List (String × List String)
unfolding record_note
group by_class [] = by_class
group by_class (note ∷ notes) = group (record_note note by_class) notes

abbrev pub lesson_of : String × List String → Lesson
lesson_of (class, instances) = record { class = class; instances = instances }

-- The order of `sort.Slice` in `Distill`.
abbrev pub by_class : Lesson → Lesson → Bool
by_class a b = str_lt a.class b.class

-- `Distill`
unfoldable pub distill : List String → List Lesson
unfolding group
distill failures = sort_by by_class (map lesson_of (group [] failures))
