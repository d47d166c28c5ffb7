-- ===== src/Examples/Boards.antt =====
-- The theorem about the two resolvers, on a board with a run of four and one of three.
use agentic_dev_harness.Shared.{◌≡◌, refl, none, [], ◌∷◌, All}
use agentic_dev_harness.Oracle.Board.{
  Board, react, cols, diverges, run_from, line_runs, row_runs, col_runs, scan_runs, scan_with,
}
use agentic_dev_harness.Oracle.Native.{native}
use agentic_dev_harness.Oracle.Agreement.{Agrees, react-Agrees}

abbrev board : Board
board = (1 ∷ 1 ∷ 1 ∷ 1 ∷ []) ∷ (1 ∷ 2 ∷ 3 ∷ 0 ∷ []) ∷ (1 ∷ 2 ∷ 0 ∷ 0 ∷ []) ∷ []

react-Agrees_example : All Agrees (board ∷ []) × (diverges react native (board ∷ []) ≡ none)
unfolding cols
react-Agrees_example = react-Agrees (board ∷ []) ((refl, (refl, (refl, tt))), tt)

-- One special gem, for the run of four.
one_special : (react board).specials ≡ 1
unfolding react scan_with scan_runs row_runs col_runs line_runs run_from cols
one_special = refl
