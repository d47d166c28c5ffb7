-- ===== src/Adr.antt =====
-- internal/adr/adr.go: the skeleton of a decision record, and the check of a complete one.
pub mod Laws
use agentic_dev_harness.Shared.{
  Bool, not, Option, List, [], ◌∷◌, map, ◌++◌, String, concat, contains, trim_right_of,
}
use agentic_dev_harness.Adh.Error.{Error, coded, invalid, switch}

abbrev pub placeholder_decision : String
placeholder_decision = "<state the decision now settled>"

abbrev pub placeholder_easier : String
placeholder_easier = "<what this improves>"

abbrev pub placeholder_harder : String
placeholder_harder = "<the trade-off accepted>"

-- `Render`
unfoldable pub render : String → String → String
render title context_body = concat (
    "# Decision: "
    ∷ title
    ∷ "\n\n**Status:** Accepted\n\n## Context\n\n"
    ∷ trim_right_of b'\n' context_body
    ∷ "\n\n## Decision\n\n"
    ∷ placeholder_decision
    ∷ "\n\n"
    ∷ "## Consequences\n\n### Easier\n\n"
    ∷ placeholder_easier
    ∷ "\n\n"
    ∷ "### Harder\n\n"
    ∷ placeholder_harder
    ∷ "\n"
    ∷ [])

-- The tokens that `Valid` requires, with the names that its errors give them.
abbrev pub required : List (String × String)
required =
    ("Status:", "a Status")
    ∷ ("## Context", "a Context section")
    ∷ ("## Decision", "a Decision section")
    ∷ ("## Consequences", "a Consequences section")
    ∷ ("### Easier", "an Easier consequence")
    ∷ ("### Harder", "a Harder consequence")
    ∷ []

abbrev pub placeholders : List String
placeholders = placeholder_decision ∷ placeholder_easier ∷ placeholder_harder ∷ []

abbrev pub missing : String → String × String → Bool × Error
missing text (token, name) =
    (not (contains text token), coded invalid (concat ("ADR is missing " ∷ name ∷ [])))

abbrev pub unfilled : String → String → Bool × Error
unfilled text placeholder = (
  contains text placeholder,
  coded invalid (concat ("ADR still has an unfilled placeholder: " ∷ placeholder ∷ [])),
)

-- `Valid`; `none` is the nil error.
unfoldable pub valid : String → Option Error
unfolding switch
valid text = switch (map (missing text) required ++ map (unfilled text) placeholders)
