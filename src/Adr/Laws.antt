-- ===== src/Adr/Laws.antt =====
-- What the check of a decision record accepts and refuses.
use agentic_dev_harness.Shared.{
  ◌≡◌, ◌≢◌, Bool, true, false, not, none, [], ◌∷◌, map, ◌++◌, String, contains, contains-concat,
  trim_right_of, All, arith,
}
use agentic_dev_harness.Adh.Error.{switch-none}
use agentic_dev_harness.Adr.{
  render, required, placeholders, placeholder_decision, placeholder_easier, placeholder_harder,
  missing, unfilled, valid,
}

-- A text that is accepted has every required token, and no placeholder of the skeleton is left.
valid_complete :
    (text : String)
    → valid text ≡ none
    → All (λ (r : String × String). contains text r.0 ≡ true) required
      × All (λ p. contains text p ≡ false) placeholders
unfolding valid
valid_complete text h =
    let all = switch-none (map (missing text) required ++ map (unfilled text) placeholders) h in
    let (a, (b, (c, (d, (e, (f, (p, (q, (r, _))))))))) = all in
    (
      (negated a, (negated b, (negated c, (negated d, (negated e, (negated f, tt)))))),
      (p, (q, (r, tt))),
    )
  where
    negated : {b : Bool} → not b ≡ false → b ≡ true
    negated h = ground arith

-- The skeleton is never accepted as it is rendered, whatever its title and its context are.
render_refused : (title context_body : String) → valid (render title context_body) ≢ none
unfolding render
render_refused title context_body h =
    let complete = valid_complete (render title context_body) h in
    let present : contains (render title context_body) placeholder_decision ≡ true =
      contains-concat
        ("# Decision: "
          ∷ title
          ∷ "\n\n**Status:** Accepted\n\n## Context\n\n"
          ∷ trim_right_of b'\n' context_body
          ∷ "\n\n## Decision\n\n"
          ∷ [])
        placeholder_decision
        ("\n\n" ∷ "## Consequences\n\n### Easier\n\n" ∷ placeholder_easier ∷ "\n\n"
          ∷ "### Harder\n\n" ∷ placeholder_harder ∷ "\n" ∷ []) in
    let absent = complete.1.0 in cc
