-- ===== src/Oracle/Result.antt =====
-- The result of clearing runs does not depend on their order.
use mathlib.Core.List.{Permᴰ}
use mathlib.Core.Path.{subst}
use agentic_dev_harness.Shared.{
  ℕ, suc, ◌≡◌, refl, sym, ◌∙◌, Bool, true, ◌||◌, List, [], ◌∷◌, leb, eqb, all, length,
  if◌then◌else◌, Bool-cases, inl, inr, arith,
}
use agentic_dev_harness.Oracle.Board.{
  Cell, Result, same_cell, has_cell, mark, mark_all, clear, clear_all, equal, equal_cells,
}

-- Two lists of cells as maps: the same keys, and as many.
pub record SameCells (a b : List Cell) : Type 0 where
  pub members : (c : Cell) → has_cell c a ≡ has_cell c b
  pub size : length a ≡ length b

same_cell-sym : (a b : Cell) → same_cell a b ≡ same_cell b a
same_cell-sym a b = ground arith

has_cell-same :
    (a b : Cell) (cells : List Cell) → same_cell a b ≡ true → has_cell a cells ≡ has_cell b cells
has_cell-same a b cells h =
    let rows : a.row ≡ b.row = ground (arith, h) in
    let cols : a.col ≡ b.col = ground (arith, h) in
    λ i. has_cell (record { row = rows i; col = cols i }) cells

pub has_cell-mark :
    (c a : Cell) (cells : List Cell)
    → has_cell c (mark a cells) ≡ (same_cell c a || has_cell c cells)
has_cell-mark c a cells = elim (Bool-cases (has_cell a cells)) [
  | inl e ↦ rw e (elim (Bool-cases (same_cell c a)) [
    | inl s ↦ rw s (has_cell-same c a cells s ∙ e)
    | inr s ↦ rw s refl
  ])
  | inr e ↦ rw e refl
]

length-mark :
    (a : Cell) (cells : List Cell)
    → length (mark a cells) ≡ (if has_cell a cells then length cells else suc (length cells))
length-mark a cells = elim (Bool-cases (has_cell a cells)) [ inl e ↦ rw e refl | inr e ↦ rw e refl ]

mark-SameCells : (a : Cell) (s t : List Cell) → SameCells s t → SameCells (mark a s) (mark a t)
mark-SameCells a s t e = record {
  members = λ c. rw (has_cell-mark c a s, has_cell-mark c a t, e.members c) refl;
  size = rw (length-mark a s, length-mark a t, e.members a, e.size) refl;
}

or-swap : (x y z : Bool) → (x || (y || z)) ≡ (y || (x || z))
or-swap x y z = ground arith

size-swap :
    (n : ℕ) (ab ha hb : Bool)
    → (ab ≡ true → ha ≡ hb)
    → (if ab || ha then (if hb then n else suc n) else suc (if hb then n else suc n))
      ≡ (if ab || hb then (if ha then n else suc n) else suc (if ha then n else suc n))
size-swap n ab ha hb h = ground arith

mark-swap : (a b : Cell) (s : List Cell) → SameCells (mark a (mark b s)) (mark b (mark a s))
mark-swap a b s = record {
  members = λ c.
      rw
        (
          has_cell-mark c a (mark b s),
          has_cell-mark c b (mark a s),
          has_cell-mark c b s,
          has_cell-mark c a s,
        )
        (or-swap (same_cell c a) (same_cell c b) (has_cell c s));
  size =
      rw
        (
          length-mark a (mark b s),
          length-mark b (mark a s),
          has_cell-mark a b s,
          has_cell-mark b a s,
          length-mark a s,
          length-mark b s,
          same_cell-sym b a,
        )
        (size-swap (length s) (same_cell a b) (has_cell a s) (has_cell b s) (has_cell-same a b s));
}

mark_all-SameCells :
    (run s t : List Cell) → SameCells s t → SameCells (mark_all run s) (mark_all run t)
mark_all-SameCells [] s t e = e
mark_all-SameCells (a ∷ run) s t e =
    mark_all-SameCells run (mark a s) (mark a t) (mark-SameCells a s t e)

same_trans : (s t u : List Cell) → SameCells s t → SameCells t u → SameCells s u
same_trans s t u e f = record { members = λ c. e.members c ∙ f.members c; size = e.size ∙ f.size }

same_refl : (s : List Cell) → SameCells s s
same_refl s = record { members = λ c. refl; size = refl }

mark-mark_all :
    (a : Cell) (run s : List Cell) → SameCells (mark_all run (mark a s)) (mark a (mark_all run s))
mark-mark_all a [] s = same_refl (mark a s)
mark-mark_all a (b ∷ run) s =
    same_trans _ _ _
      (mark_all-SameCells run (mark b (mark a s)) (mark a (mark b s)) (mark-swap b a s))
      (mark-mark_all a run (mark b s))

mark_all-swap :
    (p q s : List Cell) → SameCells (mark_all q (mark_all p s)) (mark_all p (mark_all q s))
mark_all-swap [] q s = same_refl (mark_all q s)
mark_all-swap (a ∷ p) q s =
    same_trans _ _ _ (mark_all-swap p q (mark a s))
      (mark_all-SameCells p (mark_all q (mark a s)) (mark a (mark_all q s)) (mark-mark_all a q s))

-- Two results that the code cannot tell apart.
pub record SameResult (r s : Result) : Type 0 where
  pub cells : SameCells r.cleared s.cleared
  pub specials : r.specials ≡ s.specials

pub refl_result : (r : Result) → SameResult r r
refl_result r = record { cells = same_refl r.cleared; specials = refl }

pub sym_result : {r s : Result} → SameResult r s → SameResult s r
sym_result e = record {
  cells = record { members = λ c. sym (e.cells.members c); size = sym e.cells.size };
  specials = sym e.specials;
}

module _ (special_min : ℕ) where
  clear-SameResult :
      (run : List Cell) (r s : Result)
      → SameResult r s
      → SameResult (clear special_min run r) (clear special_min run s)
  clear-SameResult run r s e = record {
    cells = mark_all-SameCells run r.cleared s.cleared e.cells;
    specials = rw e.specials refl;
  }

  clear_all-SameResult :
      (runs : List (List Cell)) (r s : Result)
      → SameResult r s
      → SameResult (clear_all special_min runs r) (clear_all special_min runs s)
  clear_all-SameResult [] r s e = e
  clear_all-SameResult (run ∷ runs) r s e =
      clear_all-SameResult runs _ _ (clear-SameResult run r s e)

  swap_counts :
      (p q : Bool) (n : ℕ)
      → (if q then suc (if p then suc n else n) else if p then suc n else n)
        ≡ (if p then suc (if q then suc n else n) else if q then suc n else n)
  swap_counts p q n = ground arith

  clear-swap :
      (p q : List Cell) (r : Result)
      → SameResult
          (clear special_min q (clear special_min p r))
          (clear special_min p (clear special_min q r))
  clear-swap p q r = record {
    cells = mark_all-swap p q r.cleared;
    specials = swap_counts (leb special_min (length p)) (leb special_min (length q)) r.specials;
  }

  trans_result : (r s t : Result) → SameResult r s → SameResult s t → SameResult r t
  trans_result r s t e f = record {
    cells = same_trans _ _ _ e.cells f.cells;
    specials = e.specials ∙ f.specials;
  }

  -- Clearing the same runs in any order gives the same result.
  pub clear_all-Permᴰ :
      {ps qs : List (List Cell)}
      → Permᴰ ps qs
      → (r : Result) → SameResult (clear_all special_min ps r) (clear_all special_min qs r)
  clear_all-Permᴰ Permᴰ.nil r = refl_result r
  clear_all-Permᴰ (Permᴰ.cons {a} {b} {l₁} {l₂} e p) r =
      subst (λ x. SameResult (clear_all special_min (a ∷ l₁) r) (clear_all special_min (x ∷ l₂) r))
        e (clear_all-Permᴰ p (clear special_min a r))
  clear_all-Permᴰ (Permᴰ.swap {a} {b} {a'} {b'} {l} e f) r =
      subst
        (λ x.
          SameResult (clear_all special_min (a ∷ b ∷ l) r) (clear_all special_min (a' ∷ x ∷ l) r))
        e
        (subst
          (λ x.
            SameResult (clear_all special_min (a ∷ b ∷ l) r) (clear_all special_min (x ∷ a ∷ l) r))
          f (clear_all-SameResult l _ _ (clear-swap a b r)))
  clear_all-Permᴰ (Permᴰ.trans p q) r =
      trans_result _ _ _ (clear_all-Permᴰ p r) (clear_all-Permᴰ q r)

all-has :
    (a b : List Cell)
    → ((c : Cell) → has_cell c a ≡ true → has_cell c b ≡ true)
    → all (λ c. has_cell c b) a ≡ true
all-has [] b h = refl
all-has (x ∷ a) b h =
    let here : same_cell x x ≡ true = ground arith in
    let first = h x (rw here refl) in
    let rest = all-has a b (λ c k. h c (later (same_cell c x) (has_cell c a) k)) in
    rw (first, rest) refl
  where
    later : (p q : Bool) → q ≡ true → (p || q) ≡ true
    later p q e = ground arith

pub equal_cells-true : (a b : List Cell) → SameCells a b → equal_cells a b ≡ true
unfolding equal_cells
equal_cells-true a b e =
    let sizes : eqb (length a) (length b) ≡ true = ground (arith, e.size) in
    rw sizes (all-has a b (λ c h. sym (e.members c) ∙ h))

pub equal-true : (r s : Result) → SameResult r s → equal r s ≡ true
unfolding equal
equal-true r s e =
    let specials_ : eqb r.specials s.specials ≡ true = ground (arith, e.specials) in
    rw specials_ (equal_cells-true r.cleared s.cleared e.cells)
