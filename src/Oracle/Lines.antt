-- ===== src/Oracle/Lines.antt =====
-- The while-scan of a line finds the runs that begin at each of its positions.
use agentic_dev_harness.Shared.{
  ℕ, zero, suc, ◌+◌, ◌-◌, ◌≤◌, ◌≡◌, refl, sym, ap, ◌∙◌, Bool, true, false, ◌||◌, List, [], ◌∷◌,
  ◌++◌, inl, inr, Bool-cases, if◌then◌else◌, map, eqb, length, arith, concat_map,
}
use agentic_dev_harness.Oracle.Board.{Cell, upto_from, run_from, line_runs, keep_long}
use agentic_dev_harness.Oracle.Native.{begins}

module _ (place : ℕ → Cell) (val : ℕ → ℕ) where
  -- The long run that begins at `k`, if one does; `n` positions are left.
  unfoldable pub run_at : ℕ → ℕ → List (List Cell)
  run_at k n =
      if eqb (val k) 0
      then []
      else if begins val k
      then keep_long (map place (run_from (λ j. eqb (val j) (val k)) k n))
      else []

  unfoldable pub runs_at : ℕ → ℕ → List (List Cell)
  runs_at k zero = []
  runs_at k (suc n) = run_at k (suc n) ++ runs_at (suc k) n

  -- A scan may stand at `k`: the line ends there, or no run goes on from before.
  abbrev may_stand : ℕ → ℕ → Bool
  may_stand k n = eqb n 0 || (eqb (val k) 0 || begins val k)

  run_at-empty : (k n : ℕ) → eqb (val k) 0 ≡ true → run_at k n ≡ []
  unfolding run_at
  run_at-empty k n e = rw e refl

  run_at-inside : (k n : ℕ) → begins val k ≡ false → run_at k n ≡ []
  unfolding run_at
  run_at-inside k n e = elim (Bool-cases (eqb (val k) 0)) [
    | inl empty ↦ rw empty refl
    | inr full ↦ rw (full, e) refl
  ]

  -- The run of the color at `k`.
  abbrev run_of : ℕ → ℕ → List ℕ
  run_of k n = run_from (λ j. eqb (val j) (val k)) k n

  run_at-full :
      (k n : ℕ)
      → eqb (val k) 0 ≡ false
      → begins val k ≡ true
      → run_at k n ≡ keep_long (map place (run_of k n))
  unfolding run_at
  run_at-full k n full e = rw (full, e) refl

  -- From one place of the line on the same runs begin as from another, where a scan may stand.
  record Skips (k n k' n' : ℕ) : Type 0 where
    runs : runs_at k n ≡ runs_at k' n'
    stands : may_stand k' n' ≡ true

  -- Inside a run none begins, and a scan may stand behind it.
  run_from-Skips :
      (k n color k' n' : ℕ)
      → val k ≡ color
      → k' ≡ suc k + length (run_from (λ j. eqb (val j) color) (suc k) n)
      → n' ≡ n - length (run_from (λ j. eqb (val j) color) (suc k) n)
      → Skips (suc k) n k' n'
  unfolding run_from runs_at
  run_from-Skips k zero color k' n' h hk hn =
      let e : n' ≡ 0 = omega (arith, hn) in record { runs = rw e refl; stands = rw e refl }
  run_from-Skips k (suc n) color k' n' h hk hn = elim (Bool-cases (eqb (val (suc k)) color)) [
    | inl same ↦
        let color_ : val (suc k) ≡ color = ground (arith, same) in
        let hk' = rw same at hk in
        let hn' = rw same at hn in
        let ih =
          run_from-Skips (suc k) n color k' n' color_ (omega (arith, hk')) (omega (arith, hn')) in
        let inside : begins val (suc k) ≡ false = ground (arith, h, color_) in
        record { runs = rw (run_at-inside (suc k) (suc n) inside) ih.runs; stands = ih.stands }
    | inr differs ↦
        let ek : k' ≡ suc k = omega (arith, rw differs at hk) in
        let en : n' ≡ suc n = omega (arith, rw differs at hn) in
        record { runs = rw (ek, en) refl; stands = rw (ek, en) (ground (arith, h, differs)) }
  ]

  run_of-cons : (k n : ℕ) → run_of k (suc n) ≡ k ∷ run_from (λ j. eqb (val j) (val k)) (suc k) n
  unfolding run_from
  run_of-cons k n = let e : eqb (val k) (val k) ≡ true = ground arith in rw e refl

  line_runs-empty :
      (fuel k n : ℕ)
      → eqb (val k) 0 ≡ true
      → line_runs place val (suc fuel) k (suc n) ≡ line_runs place val fuel (suc k) n
  unfolding line_runs
  line_runs-empty fuel k n e = rw e refl

  line_runs-full :
      (fuel k n : ℕ)
      → eqb (val k) 0 ≡ false
      → line_runs place val (suc fuel) k (suc n)
        ≡ keep_long (map place (run_of k (suc n)))
          ++ line_runs place val fuel
              (k + length (run_of k (suc n)))
              (suc n - length (run_of k (suc n)))
  unfolding line_runs
  line_runs-full fuel k n e = rw e refl

  pub line_runs-runs_at :
      (fuel k n : ℕ) → n ≤ fuel → may_stand k n ≡ true → line_runs place val fuel k n ≡ runs_at k n
  unfolding line_runs runs_at
  line_runs-runs_at zero k zero enough stands = refl
  line_runs-runs_at zero k (suc n) enough stands = absurd (omega (arith, enough))
  line_runs-runs_at (suc fuel) k zero enough stands = refl
  line_runs-runs_at (suc fuel) k (suc n) enough stands = elim (Bool-cases (eqb (val k) 0)) [
    | inl empty ↦
        let next : may_stand (suc k) n ≡ true = ground (arith, empty) in
        line_runs-empty fuel k n empty
        ∙ line_runs-runs_at fuel (suc k) n (omega (arith, enough)) next
        ∙ sym (ap (λ l. l ++ runs_at (suc k) n) (run_at-empty k (suc n) empty))
    | inr full ↦
        let start : begins val k ≡ true = ground (arith, full, stands) in
        let l = length (run_of k (suc n)) in
        let l_cons : l ≡ suc (length (run_from (λ j. eqb (val j) (val k)) (suc k) n)) =
          ap length (run_of-cons k n) in
        let skip : Skips (suc k) n (k + l) (suc n - l) =
          run_from-Skips k n (val k) (k + l) (suc n - l) refl (omega (arith, l_cons))
            (omega (arith, l_cons)) in
        let behind =
          line_runs-runs_at fuel (k + l) (suc n - l) (omega (arith, enough, l_cons)) skip.stands in
        line_runs-full fuel k n full
        ∙ ap (λ rest. keep_long (map place (run_of k (suc n))) ++ rest) (behind ∙ sym skip.runs)
        ∙ sym (ap (λ l. l ++ runs_at (suc k) n) (run_at-full k (suc n) full start))
  ]

  -- The runs of a line from `k` on, position by position; the line ends before `total`.
  pub runs_at-concat_map :
      (total k n : ℕ)
      → k + n ≡ total
      → runs_at k n ≡ concat_map (λ j. run_at j (total - j)) (upto_from k n)
  unfolding runs_at
  runs_at-concat_map total k zero h = refl
  runs_at-concat_map total k (suc n) h =
      let e : suc n ≡ total - k = omega (arith, h) in
      let ih = runs_at-concat_map total (suc k) n (omega (arith, h)) in
      rw (sym e) (ap (λ l. run_at k (suc n) ++ l) ih)

  -- The scan of a whole line finds what begins at each of its positions.
  pub line_runs-concat_map :
      (n : ℕ) → line_runs place val n 0 n ≡ concat_map (λ j. run_at j (n - j)) (upto_from 0 n)
  line_runs-concat_map n =
      line_runs-runs_at n 0 n (omega arith) (or-true (eqb n 0) (eqb (val 0) 0))
      ∙ runs_at-concat_map n 0 n (omega arith)
    where
      or-true : (p q : Bool) → (p || (q || true)) ≡ true
      or-true p q = ground arith
