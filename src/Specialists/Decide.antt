-- ===== src/Specialists/Decide.antt =====
-- `decide_initial_probe`, `decide_specialist` and `decide_custom_specialist` (specialist_activation.py).
use Prim.Native.String.{◌++◌}
use pi_tmux_orchestrator.Prelude.{
  ℕ, String, Bool, true, false, not, ◌&&◌, ◌||◌, Option, none, some, List, [], ◌∷◌, if◌then◌else◌,
}
use pi_tmux_orchestrator.Prelude.Result.{Result, ok, err, orchestration_error}
use pi_tmux_orchestrator.Prelude.Json.{Value, text, array, Items, nil, cons}
use pi_tmux_orchestrator.Store.Rows.{Activation}
use pi_tmux_orchestrator.Attention.Validate.{is_blank}
use pi_tmux_orchestrator.Roles.Identity.{valid_custom_role_id}
use pi_tmux_orchestrator.Roles.Contracts.{Specialist, probe, playwright, django, specialist_name}
use pi_tmux_orchestrator.Specialists.Paths.{
  Codes, codes, lower, slashes, is_in, parts, name_of, suffix_of, stem_of, words_of,
}

abbrev pub documentation_names : List String
documentation_names = "changelog" ∷ "contributing" ∷ "license" ∷ "readme" ∷ "security" ∷ []

abbrev pub documentation_suffixes : List String
documentation_suffixes = ".md" ∷ ".mdx" ∷ ".rst" ∷ ".txt" ∷ []

abbrev pub frontend_suffixes : List String
frontend_suffixes =
    ".css" ∷ ".js" ∷ ".jsx" ∷ ".sass" ∷ ".scss" ∷ ".svelte" ∷ ".ts" ∷ ".tsx" ∷ ".vue" ∷ []

abbrev pub browser_suffixes : List String
browser_suffixes = ".html" ∷ ".htm" ∷ frontend_suffixes

abbrev pub django_parts : List String
django_parts =
    "asgi.py" ∷ "admin.py" ∷ "apps.py" ∷ "manage.py" ∷ "middleware.py" ∷ "models.py" ∷ "settings.py"
    ∷ "urls.py" ∷ "views.py" ∷ "wsgi.py" ∷ []

abbrev pub django_directories : List String
django_directories = "migrations" ∷ "templates" ∷ []

abbrev pub probe_risk_terms : List String
probe_risk_terms =
    "api" ∷ "authentication" ∷ "authorization" ∷ "concurrency" ∷ "credential" ∷ "database"
    ∷ "integration" ∷ "migration" ∷ "protocol" ∷ "runtime" ∷ "security" ∷ "transaction" ∷ []

abbrev pub probe_doc_terms : List String
probe_doc_terms = "changelog" ∷ "documentation" ∷ "readme" ∷ "spelling" ∷ "typo" ∷ []

abbrev pub probe_code_terms : List String
probe_code_terms = "code" ∷ "implement" ∷ "logic" ∷ "refactor" ∷ "runtime" ∷ "test" ∷ []

-- The rule that decided; its id is the role, a dash and the name.
pub data Rule : Type 0 where
  forced ambiguous_task high_risk_task docs_only_task ambiguous_paths docs_only_paths : Rule
  browser_path framework_path frontend_only_paths legacy_always_run : Rule

abbrev pub rule_name : Rule → String
rule_name forced = "forced-v1"
rule_name ambiguous_task = "ambiguous-task-v1"
rule_name high_risk_task = "high-risk-task-v1"
rule_name docs_only_task = "docs-only-task-v1"
rule_name ambiguous_paths = "ambiguous-paths-v1"
rule_name docs_only_paths = "docs-only-paths-v1"
rule_name browser_path = "browser-path-v1"
rule_name framework_path = "framework-path-v1"
rule_name frontend_only_paths = "frontend-only-paths-v1"
rule_name legacy_always_run = "legacy-always-run-v1"

pub record Decision : Type 0 where
  pub role : String
  pub run : Bool
  pub rule : Rule
  pub is_forced : Bool

-- The arguments of `record_specialist_activation`.
abbrev pub activation_of : ℕ → Decision → Activation
activation_of round d = record {
  role = d.role;
  round = round;
  decision = if d.run then "run" else "skipped";
  rule_id = d.role ++ "-" ++ rule_name d.rule;
  forced = d.is_forced;
}

abbrev pub decided : Specialist → Bool → Rule → Decision
decided s run rule = record { role = specialist_name s; run = run; rule = rule; is_forced = false }

module _ {A : Type 0} where
  unfoldable pub any : (A → Bool) → List A → Bool
  any test [] = false
  any test (x ∷ rest) = test x || any test rest

  unfoldable pub all : (A → Bool) → List A → Bool
  all test [] = true
  all test (x ∷ rest) = test x && all test rest

abbrev pub add_path : Value → Option (List Codes) → Option (List Codes)
add_path (text (String.◌∷◌ c rest)) (some paths) =
    some (lower (slashes (codes (String.◌∷◌ c rest))) ∷ paths)
add_path _ _ = none

unfoldable pub item_paths : Items → Option (List Codes)
item_paths nil = some []
item_paths (cons value rest) = add_path value (item_paths rest)

-- `_normalized_paths`: a list that is not empty, of texts that are not empty
unfoldable pub normalized_paths : Value → Option (List Codes)
normalized_paths (array (cons value rest)) = item_paths (cons value rest)
normalized_paths _ = none

unfoldable pub is_documentation : Codes → Bool
unfolding is_in parts
is_documentation path =
    is_in documentation_suffixes (suffix_of path)
    || is_in documentation_names (lower (stem_of path))

unfoldable pub django_path : Codes → Bool
unfolding is_in parts any
django_path path = is_in django_parts (name_of path) || any (is_in django_directories) (parts path)

abbrev pub is_browser : Codes → Bool
is_browser path = is_in browser_suffixes (suffix_of path)

abbrev pub is_frontend : Codes → Bool
is_frontend path = is_in frontend_suffixes (suffix_of path)

abbrev pub on_paths : Specialist → List Codes → Decision
on_paths probe paths =
    if all is_documentation paths
    then decided probe false docs_only_paths
    else decided probe true ambiguous_paths
on_paths playwright paths =
    if any is_browser paths
    then decided playwright true browser_path
    else if all is_documentation paths
    then decided playwright false docs_only_paths
    else decided playwright true ambiguous_paths
on_paths django paths =
    if any django_path paths
    then decided django true framework_path
    else if all is_documentation paths
    then decided django false docs_only_paths
    else if all is_frontend paths
    then decided django false frontend_only_paths
    else decided django true ambiguous_paths

abbrev pub on_maybe_paths : Specialist → Option (List Codes) → Decision
on_maybe_paths s none = decided s true ambiguous_paths
on_maybe_paths s (some paths) = on_paths s paths

unfoldable pub decide_specialist : Specialist → Value → Bool → Decision
decide_specialist s changed_paths is_forced =
    if is_forced
    then record (decided s true forced) { is_forced = true }
    else on_maybe_paths s (normalized_paths changed_paths)

-- The decision of the contract, under the custom role's name.
unfoldable pub decide_custom_specialist : String → Specialist → Value → Bool → Result Decision
decide_custom_specialist role contract changed_paths is_forced =
    if valid_custom_role_id (text role)
    then ok (record (decide_specialist contract changed_paths is_forced) { role = role })
    else err orchestration_error

abbrev pub on_words : List Codes → Decision
on_words words =
    if any (is_in probe_risk_terms) words
    then decided probe true high_risk_task
    else if any (is_in probe_doc_terms) words && not (any (is_in probe_code_terms) words)
    then decided probe false docs_only_task
    else decided probe true ambiguous_task

abbrev pub on_task : Value → Decision
on_task (text task) =
    if is_blank task
    then decided probe true ambiguous_task
    else on_words (words_of (lower (codes task)))
on_task _ = decided probe true ambiguous_task

unfoldable pub decide_initial_probe : Value → Bool → Decision
decide_initial_probe task is_forced =
    if is_forced then record (decided probe true forced) { is_forced = true } else on_task task
