-- ===== src/Tools/Hazards.antt =====
-- internal/toolreg/hazard.go: the shapes of a shell command that are warned about. Whether a regular
-- expression matches, the names assigned, and upper case are parameters.
use agentic_dev_harness.Shared.{
  Bool, not, ◌&&◌, Option, none, some, List, [], ◌∷◌, ◌++◌, map, String, ◌==◌, if◌then◌else◌,
  concat, filter, has, concat_map,
}

-- `regexp` and `strings`: whether a pattern matches a text, the first group of each match of the
-- pattern of assignments, upper case, and `HasSuffix`.
pub record Patterns : Type 0 where
  pub matches : String → String → Bool
  pub assigned : String → List String
  pub to_upper : String → String
  pub has_suffix : String → String → Bool

-- `commandHazards`: each pattern and what it means
abbrev pub command_hazards : List (String × String)
command_hazards =
    (
      "\\b(?:curl|wget)\\b[^|;&]*\\|\\s*(?:sudo\\s+)?(?:ba|z|da|k)?sh\\b",
      "downloads code and pipes it straight into a shell",
    )
    ∷ ("\\$\\(\\s*(?:curl|wget)\\b", "executes the output of a download via $(curl …)")
    ∷ ("\\beval\\s+[\"']?\\$", "evals an expansion, so whatever the variable holds runs")
    ∷ (
      "\\bbase64\\s+(?:-d|--decode|-D)\\b[^|;&]*\\|\\s*(?:sudo\\s+)?(?:ba|z|da|k)?sh\\b",
      "decodes base64 and pipes it into a shell, hiding what runs",
    )
    ∷ []

abbrev pub library_variables : List String
library_variables =
    "LD_PRELOAD" ∷ "LD_LIBRARY_PATH" ∷ "DYLD_INSERT_LIBRARIES" ∷ "DYLD_LIBRARY_PATH" ∷ []

abbrev pub interpreter_variables : List String
interpreter_variables = "NODE_OPTIONS" ∷ "BASH_ENV" ∷ "ENV" ∷ "PYTHONSTARTUP" ∷ "PERL5OPT" ∷ []

abbrev pub git_variables : List String
git_variables = "GIT_SSH_COMMAND" ∷ "GIT_SSH" ∷ "GIT_EXEC_PATH" ∷ []

abbrev pub trust_variables : List String
trust_variables =
    "SSL_CERT_FILE" ∷ "SSL_CERT_DIR" ∷ "NODE_EXTRA_CA_CERTS" ∷ "REQUESTS_CA_BUNDLE"
    ∷ "CURL_CA_BUNDLE" ∷ "GIT_SSL_NO_VERIFY" ∷ "NODE_TLS_REJECT_UNAUTHORIZED" ∷ []

abbrev to_list {ℓ} : {A : Type ℓ} → Option A → List A
to_list none = []
to_list (some a) = a ∷ []

module _ (patterns : Patterns) where
  -- `dangerousVariable`
  unfoldable pub dangerous_variable : String → Option String
  dangerous_variable name =
      let upper = patterns.to_upper name in
      if has upper library_variables
      then some
          (concat ("sets " ∷ name ∷ ", which injects a library into every child process" ∷ []))
      else if has upper interpreter_variables
      then some
          (concat ("sets " ∷ name ∷ ", which runs extra code in every interpreter it starts" ∷ []))
      else if has upper git_variables
      then some (concat ("sets " ∷ name ∷ ", which replaces the program git runs" ∷ []))
      else if has upper trust_variables
      then some
          (concat ("sets " ∷ name ∷ ", which changes which TLS certificates are trusted" ∷ []))
      else if patterns.has_suffix upper "_PROXY" && not (upper == "NO_PROXY")
      then some (concat ("sets " ∷ name ∷ ", which routes traffic through a proxy" ∷ []))
      else none

  -- `Hazards`
  unfoldable pub hazards : String → List String
  hazards run =
      map (λ h. h.1) (filter (λ h. patterns.matches h.0 run) command_hazards)
      ++ concat_map (λ name. to_list (dangerous_variable name)) (patterns.assigned run)
