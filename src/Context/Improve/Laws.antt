-- ===== src/Context/Improve/Laws.antt =====
-- Which routes the recorded misses have earned, described without the maps.
use mathlib.Core.List.{Memᴰ}
use mathlib.Core.List.Memᴰ
use mathlib.Core.Path.{subst}
use agentic_dev_harness.Shared.{
  ℕ, suc, ◌+◌, ◌≤◌, ◌≡◌, refl, sym, ap, ◌∙◌, ◌↔◌, ◌⊎◌, inl, inr, Bool, true, false, not, ◌&&◌, none,
  List, [], ◌∷◌, ◌++◌, String, ◌==◌, if◌then◌else◌, leb, length, All-at, All-of, All-sort_by,
  Memᴰ-sort_by, Bool-cases, add, add_all, IsKeyed, insert-IsKeyed, lookup, lookup-insert, eq_iff,
  arith,
}
use agentic_dev_harness.Critic.Coverage.{occurrences}
use agentic_dev_harness.Context.Improve.{
  Miss, RouteProposal, KeyStat, or_empty_stat, bump, tally, tally_all, tally_misses, min_strata,
  over_threshold, proposal_before, propose_routes,
}

Stats : Type 0
Stats = List (String × KeyStat)

-- How often the misses name a key.
unfoldable pub mentions : (Miss → List String) → String → List Miss → ℕ
unfolding occurrences
mentions keys key [] = 0
mentions keys key (m ∷ misses) = occurrences key (keys m) + mentions keys key misses

-- The time strata in which one miss names a key, once for each time it does.
unfoldable pub named_strata : String → String → List String → List String
named_strata key stratum [] = []
named_strata key stratum (k ∷ ks) =
    let rest = named_strata key stratum ks in
    if k == key && not (stratum == "") then stratum ∷ rest else rest

unfoldable pub strata_of : (Miss → List String) → String → List Miss → List String
unfolding named_strata
strata_of keys key [] = []
strata_of keys key (m ∷ misses) = named_strata key m.stratum (keys m) ++ strata_of keys key misses

add_all-append : (xs ys seen : List String) → add_all (xs ++ ys) seen ≡ add_all ys (add_all xs seen)
add_all-append [] ys seen = refl
add_all-append (x ∷ xs) ys seen = add_all-append xs ys (add x seen)

-- What a map holds of a key.
abbrev stat_of : String → List (String × KeyStat) → KeyStat
stat_of key stats = or_empty_stat (lookup key stats)

stat_of-tally :
    (key k stratum : String) (stats : List (String × KeyStat))
    → stat_of key (tally k stratum stats)
      ≡ (if k == key then bump stratum (stat_of key stats) else stat_of key stats)
unfolding tally
stat_of-tally key k stratum stats =
    ap or_empty_stat (lookup-insert k key (bump stratum (stat_of k stats)) stats)
    ∙ (elim (Bool-cases (k == key)) [ inl e ↦ rw (e, (eq_iff k key).0 e) refl | inr e ↦ rw e refl ])

-- A statistic with further mentions in one miss.
abbrev grown : KeyStat → ℕ → List String → KeyStat
grown stat n strata_ = record { count = stat.count + n; strata = add_all strata_ stat.strata }

stat_eq : {s t : KeyStat} → s.count ≡ t.count → s.strata ≡ t.strata → s ≡ t
stat_eq p q = λ i. record { count = p i; strata = q i }

stat_of-tally_all :
    (key stratum : String) (ks : List String) (stats : List (String × KeyStat))
    → stat_of key (tally_all ks stratum stats)
      ≡ grown (stat_of key stats) (occurrences key ks) (named_strata key stratum ks)
unfolding tally_all occurrences named_strata
stat_of-tally_all key stratum [] stats = stat_eq (omega arith) refl
stat_of-tally_all key stratum (k ∷ ks) stats =
    stat_of-tally_all key stratum ks (tally k stratum stats)
    ∙ ap (λ s. grown s (occurrences key ks) (named_strata key stratum ks))
        (stat_of-tally key k stratum stats)
    ∙ step (k == key) (stratum == "") refl
  where
    step :
        (named empty : Bool)
        → (stratum == "") ≡ empty
        → grown
            (if named then bump stratum (stat_of key stats) else stat_of key stats)
            (occurrences key ks)
            (named_strata key stratum ks)
          ≡ grown
              (stat_of key stats)
              (if named then suc (occurrences key ks) else occurrences key ks)
              (if named && not empty
                then stratum ∷ named_strata key stratum ks
                else named_strata key stratum ks)
    step false empty e = refl
    step true true e = stat_eq (omega arith) (rw e refl)
    step true false e = stat_eq (omega arith) (rw e refl)

stat_of-tally_misses :
    (keys : Miss → List String) (key : String) (misses : List Miss)
    (stats : List (String × KeyStat))
    → stat_of key (tally_misses keys misses stats)
      ≡ grown (stat_of key stats) (mentions keys key misses) (strata_of keys key misses)
unfolding tally_misses mentions strata_of
stat_of-tally_misses keys key [] stats = stat_eq (omega arith) refl
stat_of-tally_misses keys key (m ∷ misses) stats =
    stat_of-tally_misses keys key misses (tally_all (keys m) m.stratum stats)
    ∙ ap (λ s. grown s (mentions keys key misses) (strata_of keys key misses))
        (stat_of-tally_all key m.stratum (keys m) stats)
    ∙ stat_eq (omega arith) (
        sym (
          add_all-append (named_strata key m.stratum (keys m)) (strata_of keys key misses)
            (stat_of key stats).strata))

tally_all-IsKeyed :
    (ks : List String) (stratum : String) (stats : List (String × KeyStat))
    → IsKeyed stats
    → IsKeyed (tally_all ks stratum stats)
unfolding tally_all tally
tally_all-IsKeyed [] stratum stats h = h
tally_all-IsKeyed (k ∷ ks) stratum stats h =
    tally_all-IsKeyed ks stratum (tally k stratum stats) (insert-IsKeyed k _ stats h)

tally_misses-IsKeyed :
    (keys : Miss → List String) (misses : List Miss) (stats : List (String × KeyStat))
    → IsKeyed stats
    → IsKeyed (tally_misses keys misses stats)
unfolding tally_misses
tally_misses-IsKeyed keys [] stats h = h
tally_misses-IsKeyed keys (m ∷ misses) stats h =
    tally_misses-IsKeyed keys misses _ (tally_all-IsKeyed (keys m) m.stratum stats h)

-- A route that a statistic has earned.
abbrev IsEarned : String → ℕ → KeyStat → RouteProposal → Type 0
IsEarned kind threshold stat p =
    (p.kind ≡ kind)
    × (p.count ≡ stat.count)
    × (p.strata ≡ length stat.strata)
    × (threshold ≤ p.count)
    × (2 ≤ p.strata)

module _ (kind : String) (threshold : ℕ) (p : RouteProposal) where
  -- What a later entry earned, the whole map earned.
  IsEarned-later :
      (k : String) (stat : KeyStat) (rest : List (String × KeyStat))
      → lookup k rest ≡ none
      → IsEarned kind threshold (stat_of p.key rest) p
      → IsEarned kind threshold (stat_of p.key ((k, stat) ∷ rest)) p
  unfolding lookup
  IsEarned-later k stat rest once earned = elim (Bool-cases (k == p.key)) [
    | inl e ↦
        let gone : lookup p.key rest ≡ none =
          subst (λ x. lookup x rest ≡ none) ((eq_iff k p.key).0 e) once in
        let empty : length (stat_of p.key rest).strata ≡ 0 = rw gone refl in
        absurd (omega (arith, empty, earned.2, earned.4))
    | inr e ↦ rw e earned
  ]

  -- The proposal of an entry.
  abbrev made : String → KeyStat → RouteProposal
  made k stat = record { key = k; kind = kind; count = stat.count; strata = length stat.strata }

  abbrev passes : KeyStat → Bool
  passes stat = leb threshold stat.count && leb min_strata (length stat.strata)

  over_threshold-IsEarned :
      (stats : List (String × KeyStat))
      → IsKeyed stats
      → Memᴰ p (over_threshold stats kind threshold)
      → IsEarned kind threshold (stat_of p.key stats) p
  unfolding over_threshold lookup
  over_threshold-IsEarned [] h m = absurd (Memᴰ.not-nil m)
  over_threshold-IsEarned ((k, stat) ∷ rest) h m = elim (Bool-cases (passes stat)) [
    | inl e ↦ elim (Memᴰ.cases_cons (rw e at m)) [
      | inl here ↦
          subst (λ q. IsEarned kind threshold (stat_of q.key ((k, stat) ∷ rest)) q) (sym here)
            (own e)
      | inr later ↦ IsEarned-later k stat rest h.0 (over_threshold-IsEarned rest h.1 later)
    ]
    | inr e ↦ IsEarned-later k stat rest h.0 (over_threshold-IsEarned rest h.1 (rw e at m))
  ]
    where
      own :
          passes stat ≡ true → IsEarned kind threshold (stat_of k ((k, stat) ∷ rest)) (made k stat)
      own e =
          let self = (eq_iff k k).1 refl in
          (refl, rw self refl, rw self refl, ground (arith, e), ground (arith, e))

  IsEarned-over_threshold :
      (stats : List (String × KeyStat))
      → IsEarned kind threshold (stat_of p.key stats) p
      → Memᴰ p (over_threshold stats kind threshold)
  unfolding over_threshold lookup
  IsEarned-over_threshold [] earned = absurd (omega (arith, earned.2, earned.4))
  IsEarned-over_threshold ((k, stat) ∷ rest) earned = elim (Bool-cases (k == p.key)) [
    | inl e ↦
        let found = rw e at earned in
        let pass : passes stat ≡ true = ground (arith, found) in
        rw pass (
          Memᴰ.head (λ i. record {
            key = sym ((eq_iff k p.key).0 e) i;
            kind = found.0 i;
            count = found.1 i;
            strata = found.2 i;
          }))
    | inr e ↦
        let later = IsEarned-over_threshold rest (rw e at earned) in
        elim (Bool-cases (passes stat)) [
          | inl pass ↦ rw pass (Memᴰ.tail later)
          | inr fail ↦ rw fail later
        ]
  ]

-- A route that the misses have earned for one field of theirs: it counts each mention of its key
-- and the time strata of these, and reaches the threshold over two strata at least.
pub record Earned (keys : Miss → List String) (kind_ : String) (misses : List Miss) (threshold : ℕ)
    (p : RouteProposal) : Type 0 where
  pub kind : p.kind ≡ kind_
  pub count : p.count ≡ mentions keys p.key misses
  pub strata : p.strata ≡ length (add_all (strata_of keys p.key misses) [])
  pub enough : threshold ≤ p.count
  pub spread : 2 ≤ p.strata

module _ (keys : Miss → List String) (kind : String) (misses : List Miss) (threshold : ℕ)
    (p : RouteProposal) where
  tallied_iff :
      Memᴰ p (over_threshold (tally_misses keys misses []) kind threshold)
      ↔ Earned keys kind misses threshold p
  unfolding lookup
  tallied_iff =
      let total = stat_of-tally_misses keys p.key misses [] in
      (
        λ m.
            let (kind_, count_, strata_, enough_, spread_) =
              subst (λ s. IsEarned kind threshold s p) total
                (over_threshold-IsEarned kind threshold p (tally_misses keys misses [])
                  (tally_misses-IsKeyed keys misses [] tt) m) in
            record {
              kind = kind_;
              count = omega (arith, count_);
              strata = strata_;
              enough = enough_;
              spread = spread_;
            },
        λ e. IsEarned-over_threshold kind threshold p (tally_misses keys misses []) (
            subst (λ s. IsEarned kind threshold s p) (sym total)
              (e.kind, omega (arith, e.count), e.strata, e.enough, e.spread)),
      )

-- A route is proposed exactly if it is earned by the labels of the recorded misses or by their
-- paths: its count is the number of mentions of its key, at least the threshold, and its strata are
-- the distinct time strata of these, two at least.
pub propose_routes_iff :
    (misses : List Miss) (threshold : ℕ) (p : RouteProposal)
    → Memᴰ p (propose_routes misses threshold) ↔ (
        Earned (λ m. m.labels) "label" misses threshold p
        ⊎ Earned (λ m. m.paths) "path" misses threshold p)
unfolding propose_routes
propose_routes_iff misses threshold p =
    let labels = over_threshold (tally_misses (λ m. m.labels) misses []) "label" threshold in
    let paths = over_threshold (tally_misses (λ m. m.paths) misses []) "path" threshold in
    let by_label = tallied_iff (λ m. m.labels) "label" misses threshold p in
    let by_path = tallied_iff (λ m. m.paths) "path" misses threshold p in
    (
      λ m.
          let unsorted : Memᴰ p (labels ++ paths) =
            All-at (λ q. Memᴰ q (labels ++ paths)) _
              (All-sort_by proposal_before _ (labels ++ paths)
                (All-of _ (labels ++ paths) (λ q k. k)))
              m in
          elim (Memᴰ.append_cases labels unsorted) [
            | inl l ↦ inl (by_label.0 l)
            | inr r ↦ inr (by_path.0 r)
          ],
      λ h. Memᴰ-sort_by proposal_before (labels ++ paths) (elim h [
        | inl l ↦ Memᴰ.append_left paths (by_label.1 l)
        | inr r ↦ Memᴰ.append_right labels (by_path.1 r)
      ]),
    )
