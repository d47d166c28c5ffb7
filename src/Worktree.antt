-- ===== src/Worktree.antt =====
-- internal/worktree/worktree.go and `Executable` of internal/execconfig: what a turn of execution
-- touched. git is a parameter: the changed paths, `none` outside of a repository; so is `clean`,
-- which stands for `path.Clean` on slashes.
use Prim.Native.String.{[], ◌∷◌}
use agentic_dev_harness.Shared.{
  Bool, true, false, not, ◌&&◌, ◌||◌, Option, none, some, List, ◌++◌, String, ◌==◌, if◌then◌else◌,
  has, filter, cut_prefix, contains,
}
use agentic_dev_harness.Adh.Arc.{Arc}
use agentic_dev_harness.Context.Areas.{area_labels}

-- `strings.HasPrefix(s, prefix)`
unfoldable pub has_prefix : String → String → Bool
unfolding cut_prefix
has_prefix prefix s = elim (cut_prefix prefix s) [ none ↦ false | some rest ↦ true ]

-- `strings.HasSuffix(s, suffix)`
unfoldable pub has_suffix : String → String → Bool
has_suffix suffix [] = suffix == ""
has_suffix suffix (c ∷ s) = let later = has_suffix suffix s in suffix == (c ∷ s) || later

-- A file `settings*.json` right under `.claude`.
abbrev settings_file : Option String → Bool
settings_file none = false
settings_file (some base) =
    not (contains base "/") && (has_prefix "settings" base && has_suffix ".json" base)

abbrev config_names : List String
config_names = List.◌∷◌ ".adh/tools.json" (
    List.◌∷◌ ".adh/loops.json"
      (List.◌∷◌ ".mcp.json" (List.◌∷◌ "CLAUDE.md" (List.◌∷◌ "AGENTS.md" List.[]))))

module _ (clean : String → String) where
  -- `Executable`
  unfoldable pub executable : String → Bool
  unfolding has_prefix has_suffix cut_prefix contains
  executable path =
      let p = clean path in
      has p config_names
      || (has_prefix ".adh/prompts/" p || has_prefix ".claude/hooks/" p)
      || settings_file (cut_prefix ".claude/" p)

  -- `ChangedCodePaths` on what git reports
  unfoldable pub changed_code_paths : Option (List String) → Option (List String)
  unfolding executable
  changed_code_paths none = none
  changed_code_paths (some changed) =
      some (filter (λ p. not (has_prefix ".adh/" p) || executable p) changed)

-- The loop of `CaptureFootprint` over the labels.
unfoldable pub add_labels : List String → List String → List String
add_labels List.[] labels = labels
add_labels (List.◌∷◌ l ls) labels =
    add_labels ls (if has l labels then labels else labels ++ List.◌∷◌ l List.[])

abbrev pub touched : {U : Type 0} → Option (List String) → Arc U → Arc U
touched none arc = arc
touched (some paths) arc = record arc {
  paths = paths;
  labels = add_labels (area_labels paths) arc.labels;
}

-- `CaptureFootprint`
unfoldable pub capture_footprint :
    {U : Type 0} → (String → String) → Option (List String) → Arc U → Arc U
unfolding changed_code_paths add_labels area_labels
capture_footprint clean changed arc = touched (changed_code_paths clean changed) arc
