-- ===== src/Oracle/Native.antt =====
-- internal/oracle/oracle.go: the resolver that starts runs cell by cell.
use agentic_dev_harness.Shared.{
  ℕ, zero, suc, ◌-◌, Bool, true, not, List, [], ◌∷◌, if◌then◌else◌, map, ltb, eqb, length,
}
use agentic_dev_harness.Oracle.Board.{
  Board, Cell, cell, Result, row_at, at, upto_from, run_from, clear, nothing,
}

-- `horizontalRun`
unfoldable pub horizontal_run : Board → ℕ → ℕ → List Cell
unfolding run_from
horizontal_run board r c =
    map (λ k. cell r k)
      (run_from (λ k. eqb (at board r k) (at board r c)) c (length (row_at board r) - c))

-- `verticalRun`
unfoldable pub vertical_run : Board → ℕ → ℕ → List Cell
unfolding run_from
vertical_run board r c =
    map (λ k. cell k c) (run_from (λ k. eqb (at board k c) (at board r c)) r (length board - r))

-- `clearRun`
unfoldable pub clear_run : List Cell → ℕ → Result → Result
clear_run cells special_min res = if ltb (length cells) 3 then res else clear special_min cells res

-- The position is the first, or the one before it has another value.
abbrev pub begins : (ℕ → ℕ) → ℕ → Bool
begins val zero = true
begins val (suc k) = not (eqb (val k) (val (suc k)))

-- `nativeCell`
unfoldable pub native_cell : Board → ℕ → ℕ → Result → Result
unfolding horizontal_run vertical_run clear_run
native_cell board r c res =
    let color = at board r c in
    let across : Result =
      if begins (λ k. at board r k) c then clear_run (horizontal_run board r c) 4 res else res in
    let down : Result =
      if begins (λ k. at board k c) r
      then clear_run (vertical_run board r c) 4 across
      else across in
    if eqb color 0 then res else down

unfoldable pub native_row : Board → ℕ → List ℕ → Result → Result
unfolding native_cell
native_row board r [] res = res
native_row board r (c ∷ cs) res = native_row board r cs (native_cell board r c res)

unfoldable pub native_rows : Board → List ℕ → Result → Result
unfolding native_row
native_rows board [] res = res
native_rows board (r ∷ rs) res =
    native_rows board rs (native_row board r (upto_from 0 (length (row_at board r))) res)

-- `Native`
unfoldable pub native : Board → Result
unfolding native_rows
native board = native_rows board (upto_from 0 (length board)) nothing
