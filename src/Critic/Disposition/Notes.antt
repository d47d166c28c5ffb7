-- ===== src/Critic/Disposition/Notes.antt =====
-- The texts that a verdict leaves in the logs of the repository, and its classes.
use agentic_dev_harness.Shared.{List, [], ◌∷◌, map, String, concat, sort_strings, add_all}
use agentic_dev_harness.Adh.Finding.{Finding, kind_text}
use agentic_dev_harness.Critic.Disposition.{Verdict}

abbrev note : Finding → String
note f = concat (kind_text f.kind ∷ ": " ∷ f.summary ∷ [])

-- `notesFor`
unfoldable pub notes_for : List Finding → List String
unfolding kind_text
notes_for findings = map note findings

-- `FailureNotes`
unfoldable pub failure_notes : Verdict → List String
failure_notes v = notes_for v.confirmed

-- `LessonNotes`
unfoldable pub lesson_notes : Verdict → List String
lesson_notes v = notes_for v.unconfirmed

-- `UncheckedNotes`
unfoldable pub unchecked_notes : Verdict → List String
unchecked_notes v = notes_for v.unchecked

-- `ReservationNotes`
unfoldable pub reservation_notes : Verdict → List String
reservation_notes v = notes_for v.reservations

-- `RefusedNotes`
unfoldable pub refused_notes : Verdict → List String
refused_notes v = notes_for v.refused

-- The kind of each finding, as a text.
abbrev pub kinds_of : List Finding → List String
kinds_of = map (λ f. kind_text f.kind)

-- `Classes`: the keys of the map `seen`, sorted.
unfoldable pub classes : Verdict → List String
unfolding kind_text
classes v = sort_strings (
    add_all (kinds_of v.unchecked)
      (add_all (kinds_of v.unconfirmed) (add_all (kinds_of v.confirmed) [])))
