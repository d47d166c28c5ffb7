-- ===== src/Oracle/Agreement.antt =====
-- The two resolvers agree.
use mathlib.Core.List.{Permᴰ}
use mathlib.Core.List.Permᴰ
use mathlib.Core.Path.{subst}
use agentic_dev_harness.Shared.{
  ℕ, zero, suc, ◌+◌, ◌-◌, ◌<◌, ◌≤◌, ◌≡◌, refl, sym, ap, ◌∙◌, Bool, true, false, none, List, [], ◌∷◌,
  ◌++◌, inl, inr, Bool-cases, if◌then◌else◌, eqb, ltb, leb, All, length, concat_map, arith,
}
use agentic_dev_harness.Oracle.Board.{
  Board, Cell, cell, Result, row_at, at, cols, upto_from, keep_long, row_runs, col_runs, scan_runs,
  clear, clear_all, nothing, react, scan_with, equal, recount, invariants_hold, equal_cells,
  diverges,
}
use agentic_dev_harness.Oracle.Native.{
  begins, horizontal_run, vertical_run, clear_run, native_cell, native_row, native_rows, native,
}
use agentic_dev_harness.Oracle.Lines.{run_at, line_runs-concat_map}
use agentic_dev_harness.Oracle.Orders.{
  same-Permᴰ, concat_map-append, concat_map-Permᴰ, concat_map-cong, concat_map-swap,
}
use agentic_dev_harness.Oracle.Result.{
  SameResult, clear_all-Permᴰ, equal-true, equal_cells-true, refl_result, sym_result,
}

clear_all-append :
    (m : ℕ) (ps qs : List (List Cell)) (r : Result)
    → clear_all m (ps ++ qs) r ≡ clear_all m qs (clear_all m ps r)
clear_all-append m [] qs r = refl
clear_all-append m (p ∷ ps) qs r = clear_all-append m ps qs (clear m p r)

clear_run-keep_long :
    (run : List Cell) (r : Result) → clear_run run 4 r ≡ clear_all 4 (keep_long run) r
unfolding clear_run
clear_run-keep_long run r = elim (Bool-cases (leb 3 (length run))) [
  | inl e ↦ let short : ltb (length run) 3 ≡ false = ground (arith, e) in rw (e, short) refl
  | inr e ↦ let short : ltb (length run) 3 ≡ true = ground (arith, e) in rw (e, short) refl
]

two_runs :
    (p q : Bool) (h v : List Cell) (r : Result)
    → (if q
        then clear_run v 4 (if p then clear_run h 4 r else r)
        else if p
        then clear_run h 4 r
        else r)
      ≡ clear_all 4 ((if p then keep_long h else []) ++ (if q then keep_long v else [])) r
two_runs true true h v r =
    clear_run-keep_long v (clear_run h 4 r)
    ∙ ap (clear_all 4 (keep_long v)) (clear_run-keep_long h r)
    ∙ sym (clear_all-append 4 (keep_long h) (keep_long v) r)
two_runs true false h v r = clear_run-keep_long h r ∙ sym (clear_all-append 4 (keep_long h) [] r)
two_runs false true h v r = clear_run-keep_long v r
two_runs false false h v r = refl

module _ (board : Board) where
  -- The long run across and the one down that begin at a cell.
  abbrev across : ℕ → ℕ → List (List Cell)
  across r c = run_at (λ k. cell r k) (λ k. at board r k) c (length (row_at board r) - c)

  abbrev down : ℕ → ℕ → List (List Cell)
  down r c = run_at (λ k. cell k c) (λ k. at board k c) r (length board - r)

  native_cell-eq :
      (r c : ℕ) (res : Result)
      → native_cell board r c res ≡ clear_all 4 (across r c ++ down r c) res
  unfolding native_cell horizontal_run vertical_run run_at
  native_cell-eq r c res = elim (Bool-cases (eqb (at board r c) 0)) [
    | inl empty ↦ rw empty refl
    | inr full ↦ rw full (
        two_runs (begins (λ k. at board r k) c) (begins (λ k. at board k c) r)
          (horizontal_run board r c) (vertical_run board r c) res)
  ]

  abbrev both : ℕ → ℕ → List (List Cell)
  both r c = across r c ++ down r c

  native_row-eq :
      (r : ℕ) (cs : List ℕ) (res : Result)
      → native_row board r cs res ≡ clear_all 4 (concat_map (both r) cs) res
  unfolding native_row
  native_row-eq r [] res = refl
  native_row-eq r (c ∷ cs) res =
      native_row-eq r cs (native_cell board r c res)
      ∙ ap (clear_all 4 (concat_map (both r) cs)) (native_cell-eq r c res)
      ∙ sym (clear_all-append 4 (both r c) (concat_map (both r) cs) res)

  abbrev row_cells : ℕ → List ℕ
  row_cells r = upto_from 0 (length (row_at board r))

  native_rows-eq :
      (rs : List ℕ) (res : Result)
      → native_rows board rs res
        ≡ clear_all 4 (concat_map (λ r. concat_map (both r) (row_cells r)) rs) res
  unfolding native_rows
  native_rows-eq [] res = refl
  native_rows-eq (r ∷ rs) res =
      native_rows-eq rs (native_row board r (row_cells r) res)
      ∙ ap (clear_all 4 (concat_map (λ q. concat_map (both q) (row_cells q)) rs))
          (native_row-eq r (row_cells r) res)
      ∙ sym (clear_all-append 4 (concat_map (both r) (row_cells r)) _ res)

  abbrev rows_ : List ℕ
  rows_ = upto_from 0 (length board)

  abbrev cols_ : List ℕ
  cols_ = upto_from 0 (cols board)

  scan_runs-eq :
      scan_runs board
      ≡ concat_map (λ r. concat_map (across r) (row_cells r)) rows_
        ++ concat_map (λ c. concat_map (λ r. down r c) rows_) cols_
  unfolding scan_runs row_runs col_runs
  scan_runs-eq = λ i.
      concat_map
        (λ r. line_runs-concat_map (λ k. cell r k) (λ k. at board r k) (length (row_at board r)) i)
        rows_
      ++ concat_map (λ c. line_runs-concat_map (λ k. cell k c) (λ k. at board k c) (length board) i)
          cols_

All-row_at :
    (P : List ℕ → Type 0) (board : Board)
    → All P board
    → (r : ℕ) → r < length board
    → P (row_at board r)
All-row_at P [] h r lt = absurd (omega (arith, lt))
All-row_at P (row ∷ board) h zero lt = h.0
All-row_at P (row ∷ board) h (suc r) lt = All-row_at P board h.1 r (omega (arith, lt))

All-upto_from : (Q : ℕ → Type 0) (k n : ℕ) → ((r : ℕ) → r < k + n → Q r) → All Q (upto_from k n)
All-upto_from Q k zero h = tt
All-upto_from Q k (suc n) h =
    (h k (omega arith), All-upto_from Q (suc k) n (λ r lt. h r (omega (arith, lt))))

-- Every row of the board is as long as its first.
abbrev pub IsRectangular : Board → Type 0
IsRectangular board = All (λ row. length row ≡ cols board) board

-- Cell by cell or all rows before all columns, the same runs are found.
runs-Permᴰ :
    (board : Board)
    → IsRectangular board
    → Permᴰ
        (scan_runs board)
        (concat_map (λ r. concat_map (both board r) (row_cells board r)) (rows_ board))
runs-Permᴰ board rect = Permᴰ.trans (same-Permᴰ (scan_runs-eq board)) (
    Permᴰ.symm (
      Permᴰ.trans
        (concat_map-Permᴰ _ _ (rows_ board)
          (λ r. concat_map-append (across board r) (down board r) (row_cells board r)))
        (Permᴰ.trans (concat_map-append _ _ (rows_ board)) (
          Permᴰ.append_left
            (concat_map (λ r. concat_map (across board r) (row_cells board r)) (rows_ board))
            (Permᴰ.trans (same-Permᴰ widths)
              (concat_map-swap (down board) (rows_ board) (cols_ board)))))))
  where
    widths :
        concat_map (λ r. concat_map (down board r) (row_cells board r)) (rows_ board)
        ≡ concat_map (λ r. concat_map (down board r) (cols_ board)) (rows_ board)
    widths = concat_map-cong _ _ (rows_ board) (
        All-upto_from _ 0 (length board) (λ r lt i.
          concat_map (down board r)
            (upto_from 0 (All-row_at _ board rect r (omega (arith, lt)) i))))

react-native : (board : Board) → IsRectangular board → SameResult (react board) (native board)
unfolding react scan_with native
react-native board rect =
    subst (SameResult (clear_all 4 (scan_runs board) nothing))
      (sym (native_rows-eq board (rows_ board) nothing))
      (clear_all-Permᴰ 4 (runs-Permᴰ board rect) nothing)

recount-clear_all :
    (runs : List (List Cell)) (r : Result)
    → let found = recount runs r.specials r.cleared in
      (found.0 ≡ (clear_all 4 runs r).specials) × (found.1 ≡ (clear_all 4 runs r).cleared)
unfolding recount
recount-clear_all [] r = (refl, refl)
recount-clear_all (run ∷ runs) r = recount-clear_all runs (clear 4 run r)

specials-bound :
    (runs : List (List Cell)) (r : Result)
    → (clear_all 4 runs r).specials ≤ r.specials + length runs
specials-bound [] r = omega arith
specials-bound (run ∷ runs) r =
    let step : (clear 4 run r).specials ≤ suc r.specials =
      one_more (leb 4 (length run)) r.specials in
    omega (arith, step, specials-bound runs (clear 4 run r))
  where
    one_more : (b : Bool) (n : ℕ) → (if b then suc n else n) ≤ suc n
    one_more b n = ground arith

invariants_hold-SameResult :
    (board : Board) (r : Result) → SameResult r (react board) → invariants_hold board r ≡ true
unfolding invariants_hold react scan_with
invariants_hold-SameResult board r same =
    let runs = scan_runs board in
    let (count_, cells_) = recount-clear_all runs nothing in
    let first : eqb r.specials (recount runs 0 []).0 ≡ true =
      ground (arith, count_, same.specials) in
    let second : equal_cells r.cleared (recount runs 0 []).1 ≡ true =
      rw cells_ (equal_cells-true r.cleared _ same.cells) in
    let third : leb r.specials (length runs) ≡ true =
      ground (arith, specials-bound runs nothing, same.specials) in
    rw (first, second, third) refl

-- The two resolvers give equal results, and both results pass the check of the rules.
pub record Agrees (board : Board) : Type 0 where
  pub same : equal (react board) (native board) ≡ true
  pub react_holds : invariants_hold board (react board) ≡ true
  pub native_holds : invariants_hold board (native board) ≡ true

rectangular-Agrees : (board : Board) → IsRectangular board → Agrees board
rectangular-Agrees board rect =
    let same_ = react-native board rect in
    record {
      same = equal-true (react board) (native board) same_;
      react_holds = invariants_hold-SameResult board (react board) (refl_result (react board));
      native_holds = invariants_hold-SameResult board (native board) (sym_result same_);
    }

-- On rectangular boards the differential oracle finds no divergence between the two resolvers:
-- board by board their results are equal, and both pass the check of the rules, as many specials as
-- runs of four and more, and exactly the cells of the runs cleared.
pub react-Agrees :
    (boards : List Board)
    → All IsRectangular boards
    → All Agrees boards × (diverges react native boards ≡ none)
unfolding diverges
react-Agrees [] rect = (tt, refl)
react-Agrees (board ∷ boards) rect =
    let agree = rectangular-Agrees board rect.0 in
    let (later, none_) = react-Agrees boards rect.1 in ((agree, later), rw agree.same none_)
