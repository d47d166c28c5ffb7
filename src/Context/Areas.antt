-- ===== src/Context/Areas.antt =====
-- internal/contextstore/contextstore.go: the areas of an arc's paths, and ids that two units share.
use agentic_dev_harness.Shared.{
  ℕ, suc, ◌||◌, Option, none, some, List, [], ◌∷◌, ◌++◌, String, ◌==◌, if◌then◌else◌, map, ltb,
  filter, has, sort_strings, cut_prefix, cut_at, lookup, insert,
}
use agentic_dev_harness.Context.Freshness.{ContextUnit}

abbrev pub without_dot : Option String → String → String
without_dot none path = path
without_dot (some rest) path = rest

abbrev pub before_slash : String → Option String → String
before_slash first none = ""
before_slash first (some rest) = first

-- `topDir`; the slash is character 47.
unfoldable pub top_dir : String → String
unfolding cut_prefix cut_at
top_dir path =
    let cut = cut_at 47 (without_dot (cut_prefix "./" path) path) in before_slash cut.first cut.rest

-- The loop of `AreaLabels`: `seen` holds the areas that `labels` does.
unfoldable pub areas_from : List String → List String → List String
unfolding top_dir
areas_from labels [] = labels
areas_from labels (path ∷ paths) =
    let area = top_dir path in
    areas_from (if area == "" || has area labels then labels else labels ++ (area ∷ [])) paths

-- `AreaLabels`
unfoldable pub area_labels : List String → List String
unfolding areas_from
area_labels paths = sort_strings (areas_from [] paths)

-- A missing key of a map of counts reads as 0.
abbrev pub or_zero : Option ℕ → ℕ
or_zero none = 0
or_zero (some n) = n

-- The first loop of `DuplicateIDs`.
unfoldable pub id_counts : List (String × ℕ) → List ContextUnit → List (String × ℕ)
unfolding lookup insert
id_counts counts [] = counts
id_counts counts (u ∷ units) =
    id_counts (insert u.id (suc (or_zero (lookup u.id counts))) counts) units

-- `DuplicateIDs`
unfoldable pub duplicate_ids : List ContextUnit → List String
unfolding id_counts
duplicate_ids units =
    sort_strings (map (λ entry. entry.0) (filter (λ entry. ltb 1 entry.1) (id_counts [] units)))
