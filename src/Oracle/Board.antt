-- ===== src/Oracle/Board.antt =====
-- internal/oracle/oracle.go: boards, results, and the resolvers that scan line by line.
use agentic_dev_harness.Shared.{
  ℕ, zero, suc, ◌+◌, ◌-◌, Bool, true, false, not, ◌&&◌, Option, none, some, List, [], ◌∷◌, ◌++◌,
  if◌then◌else◌, map, leb, eqb, length, any, all, concat_map,
}
use agentic_dev_harness.Adh.Error.{Error, coded, internal}

-- `Board`
abbrev pub Board : Type 0
Board = List (List ℕ)

pub record Cell : Type 0 where
  pub row : ℕ
  pub col : ℕ

abbrev pub cell : ℕ → ℕ → Cell
cell r c = record { row = r; col = c }

-- `Result`; `cleared` holds the keys of the map.
pub record Result : Type 0 where
  pub cleared : List Cell
  pub specials : ℕ

abbrev pub row_at : Board → ℕ → List ℕ
row_at [] r = []
row_at (row ∷ board) zero = row
row_at (row ∷ board) (suc r) = row_at board r

abbrev pub nth : List ℕ → ℕ → ℕ
nth [] c = 0
nth (x ∷ xs) zero = x
nth (x ∷ xs) (suc c) = nth xs c

-- `board[r][c]`
abbrev pub at : Board → ℕ → ℕ → ℕ
at board r c = nth (row_at board r) c

-- `cols`
unfoldable pub cols : Board → ℕ
cols board = length (row_at board 0)

-- `n` numbers from `k` on, for `range`
abbrev pub upto_from : ℕ → ℕ → List ℕ
upto_from k zero = []
upto_from k (suc n) = k ∷ upto_from (suc k) n

abbrev pub same_cell : Cell → Cell → Bool
same_cell a b = eqb a.row b.row && eqb a.col b.col

-- `cleared[cell]`
abbrev pub has_cell : Cell → List Cell → Bool
has_cell a cells = any (same_cell a) cells

-- `cleared[cell] = true`
abbrev pub mark : Cell → List Cell → List Cell
mark a cells = if has_cell a cells then cells else a ∷ cells

abbrev pub mark_all : List Cell → List Cell → List Cell
mark_all [] cells = cells
mark_all (a ∷ run) cells = mark_all run (mark a cells)

-- The loop that extends a run: the positions from `k` on, of `n` that are left, up to the first
-- that does not belong to it.
unfoldable pub run_from : (ℕ → Bool) → ℕ → ℕ → List ℕ
run_from same k zero = []
run_from same k (suc n) = let rest = run_from same (suc k) n in if same k then k ∷ rest else []

abbrev pub long : List Cell → Bool
long run = leb 3 (length run)

abbrev pub keep_long : List Cell → List (List Cell)
keep_long run = if long run then run ∷ [] else []

-- The while-scan of a line whose position `k` has the value `val k` and the cell `place k`; `n`
-- positions are left. Each pass advances, so the length of the line is enough fuel.
unfoldable pub line_runs : (ℕ → Cell) → (ℕ → ℕ) → ℕ → ℕ → ℕ → List (List Cell)
unfolding run_from
line_runs place val zero k n = []
line_runs place val (suc fuel) k zero = []
line_runs place val (suc fuel) k (suc n) =
    let run = run_from (λ j. eqb (val j) (val k)) k (suc n) in
    let next = line_runs place val fuel (suc k) n in
    let behind = line_runs place val fuel (k + length run) (suc n - length run) in
    if eqb (val k) 0 then next else keep_long (map place run) ++ behind

-- `appendRowRuns`, what it appends
unfoldable pub row_runs : Board → ℕ → List (List Cell)
unfolding line_runs
row_runs board r =
    let n = length (row_at board r) in line_runs (λ c. cell r c) (λ c. at board r c) n 0 n

-- `appendColRuns`, what it appends
unfoldable pub col_runs : Board → ℕ → List (List Cell)
unfolding line_runs
col_runs board c = let n = length board in line_runs (λ r. cell r c) (λ r. at board r c) n 0 n

-- `scanRuns`
unfoldable pub scan_runs : Board → List (List Cell)
unfolding row_runs col_runs cols
scan_runs board =
    concat_map (row_runs board) (upto_from 0 (length board))
    ++ concat_map (col_runs board) (upto_from 0 (cols board))

-- The body of the loop of `scanFrom`.
abbrev pub clear : ℕ → List Cell → Result → Result
clear special_min run res = record {
  cleared = mark_all run res.cleared;
  specials = if leb special_min (length run) then suc res.specials else res.specials;
}

abbrev pub clear_all : ℕ → List (List Cell) → Result → Result
clear_all special_min [] res = res
clear_all special_min (run ∷ runs) res = clear_all special_min runs (clear special_min run res)

abbrev pub nothing : Result
nothing = record { cleared = []; specials = 0 }

-- `scanFrom`
unfoldable pub scan_with : Board → ℕ → Result
unfolding scan_runs
scan_with board special_min = clear_all special_min (scan_runs board) nothing

-- `React`
unfoldable pub react : Board → Result
unfolding scan_with
react board = scan_with board 4

-- `Buggy`
unfoldable pub buggy : Board → Result
unfolding scan_with
buggy board = scan_with board 3

-- `equalCellSet`
unfoldable pub equal_cells : List Cell → List Cell → Bool
equal_cells a b = eqb (length a) (length b) && all (λ c. has_cell c b) a

-- `Result.Equal`
unfoldable pub equal : Result → Result → Bool
unfolding equal_cells
equal r s = eqb r.specials s.specials && equal_cells r.cleared s.cleared

-- The runs of 4 and more, counted, and the cells of all runs, as `InvariantsHold` collects them.
unfoldable pub recount : List (List Cell) → ℕ → List Cell → ℕ × List Cell
recount [] specials cells = (specials, cells)
recount (run ∷ runs) specials cells =
    recount runs (if leb 4 (length run) then suc specials else specials) (mark_all run cells)

-- `InvariantsHold`; that the count is not negative holds of any natural number.
unfoldable pub invariants_hold : Board → Result → Bool
unfolding scan_runs recount equal_cells
invariants_hold board result =
    let runs = scan_runs board in
    let found = recount runs 0 [] in
    eqb result.specials found.0
    && equal_cells result.cleared found.1
    && leb result.specials (length runs)

-- `Diverges`
unfoldable pub diverges : (Board → Result) → (Board → Result) → List Board → Option Board
unfolding equal
diverges a b [] = none
diverges a b (board ∷ boards) =
    let rest = diverges a b boards in if not (equal (a board) (b board)) then some board else rest

abbrev pub is_some : Option Board → Bool
is_some none = false
is_some (some board) = true

-- `SelfTest` on the boards that `GenerateBoards` gives for its seed
unfoldable pub self_test : List Board → Option Error
unfolding diverges react buggy invariants_hold
self_test boards =
    if not (is_some (diverges react buggy boards))
    then some (coded internal "gate self-test: differential oracle missed the planted defect")
    else if not (any (λ board. not (invariants_hold board (buggy board))) boards)
    then some (coded internal "gate self-test: invariant checker missed the planted defect")
    else none
