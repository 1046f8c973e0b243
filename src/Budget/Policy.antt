-- ===== src/Budget/Policy.antt =====
-- Policies (budgeting.py), and the retained one (broker_store.py). The nested dicts of a policy are
-- one table by level, scope and metric.
use pi_tmux_orchestrator.Prelude.{
  ℕ, ◌*◌, String, Bool, true, not, ◌&&◌, ◌||◌, Option, none, some, List, [], ◌∷◌, leb, ◌==◌,
  String_eq, ℕ_eq, if◌then◌else◌, contains,
}
use pi_tmux_orchestrator.Prelude.Result.{
  Result, ok, err, ErrorCode, ◌>>=◌, orchestration_error, invalid_arguments, internal_error,
}
use pi_tmux_orchestrator.Prelude.Json.{
  Value, null, text, object, array, Fields, field, end, nil, cons, get, keys_within, Stored, absent,
  unreadable, decoded,
}
use pi_tmux_orchestrator.Prelude.Table.{exists, length}
use pi_tmux_orchestrator.Store.Writes.{delete}
use pi_tmux_orchestrator.Control.Request.{is_one}
use pi_tmux_orchestrator.Budget.Amount.{
  Amount, whole, at_most, validate_budget_value, budget_levels, budget_scopes, budget_metrics,
}

pub record Key : Type 0 where
  pub level : String
  pub scope : String
  pub metric : String

abbrev pub same_key : Key → Key → Bool
same_key k j = k.level == j.level && k.scope == j.scope && k.metric == j.metric

abbrev pub Thresholds : Type 0
Thresholds = List (Key × Amount)

pub record Policy : Type 0 where
  pub enforcement : String
  pub thresholds : Thresholds

-- policy[level][scope].get(metric)
unfoldable pub threshold : Key → Thresholds → Option Amount
threshold k [] = none
threshold k ((j, a) ∷ rest) = if same_key k j then some a else threshold k rest

-- policy[level][scope].pop(metric, None)
unfoldable pub without : Key → Thresholds → Thresholds
unfolding delete
without k rows = delete (λ (j, a). same_key k j) rows

-- policy[level][scope][metric] = value, where None takes the threshold away
abbrev pub put : Key → Option Amount → Thresholds → Thresholds
put k none rows = without k rows
put k (some a) rows = (k, a) ∷ without k rows

abbrev pub key : String → String → String → Key
key level scope metric = record { level = level; scope = scope; metric = metric }

unfoldable pub packaged_budget_policy : Policy
packaged_budget_policy = record {
  enforcement = "warn-only";
  thresholds =
      (key "warning" "run" "operational_tokens", whole 600000)
      ∷ (key "warning" "role" "operational_tokens", whole 200000)
      ∷ [];
}

abbrev pub below_hard : Option Amount → Amount → Bool
below_hard none w = true
below_hard (some h) w = at_most w h

abbrev pub is_below : Thresholds → Key → Amount → Bool
is_below rows k w =
    not (k.level == "warning") || below_hard (threshold (record k { level = "hard" }) rows) w

unfoldable pub all_below : Thresholds → Thresholds → Bool
all_below rows [] = true
all_below rows ((k, w) ∷ rest) = is_below rows k w && all_below rows rest

-- `_validate_budget_order`, with the code that its failure is raised with
abbrev pub validate_budget_order : ErrorCode → Policy → Result Policy
validate_budget_order code policy =
    if all_below policy.thresholds policy.thresholds then ok policy else err code

abbrev pub merged_value : Key → Value → Thresholds → Result Thresholds
merged_value k null rows = ok (put k none rows)
merged_value k value rows = do a ← validate_budget_value k.metric value; ok (put k (some a) rows)

unfoldable pub merge_metrics : String → String → Fields → Thresholds → Result Thresholds
merge_metrics level scope end rows = ok rows
merge_metrics level scope (field metric value rest) rows = do
  more ← merged_value (key level scope metric) value rows
  merge_metrics level scope rest more

abbrev pub merge_scope : String → String → Value → Thresholds → Result Thresholds
merge_scope level scope (object metrics) rows =
    if keys_within budget_metrics metrics
    then merge_metrics level scope metrics rows
    else err orchestration_error
merge_scope level scope _ rows = err orchestration_error

unfoldable pub merge_scopes : String → Fields → Thresholds → Result Thresholds
unfolding keys_within merge_metrics
merge_scopes level end rows = ok rows
merge_scopes level (field scope value rest) rows = do
  more ← merge_scope level scope value rows
  merge_scopes level rest more

-- `_merge_budget_level`, if the level is configured
abbrev pub merge_level : String → Option Value → Thresholds → Result Thresholds
merge_level level none rows = ok rows
merge_level level (some (object scopes)) rows =
    if keys_within budget_scopes scopes
    then merge_scopes level scopes rows
    else err orchestration_error
merge_level level (some _) rows = err orchestration_error

abbrev pub budget_enforcement : List String
budget_enforcement = "warn-only" ∷ "hard" ∷ []

abbrev pub enforcement_of : Option Value → Result String
enforcement_of none = ok "warn-only"
enforcement_of (some (text name)) =
    if contains budget_enforcement name then ok name else err orchestration_error
enforcement_of (some _) = err orchestration_error

abbrev pub budget_config_fields : List String
budget_config_fields = "version" ∷ "enforcement" ∷ "warning" ∷ "hard" ∷ []

unfoldable pub configured_policy : Fields → Result Policy
unfolding get merge_scopes contains packaged_budget_policy
configured_policy value = do
  enforcement ← enforcement_of (get "enforcement" value)
  warned ← merge_level "warning" (get "warning" value) packaged_budget_policy.thresholds
  all ← merge_level "hard" (get "hard" value) warned
  validate_budget_order orchestration_error (record { enforcement = enforcement; thresholds = all })

unfoldable pub validate_budget_config : Value → Result Policy
unfolding get keys_within configured_policy
validate_budget_config (object value) =
    if keys_within budget_config_fields value && is_one (get "version" value)
    then configured_policy value
    else err orchestration_error
validate_budget_config _ = err orchestration_error

unfoldable pub retained_budget_policy : Stored → Result Policy
unfolding validate_budget_config
retained_budget_policy absent = ok packaged_budget_policy
retained_budget_policy unreadable = err orchestration_error
retained_budget_policy (decoded value) = validate_budget_config value

-- An override: a list or a tuple of the level, the scope, the metric and the value.
pub record Override : Type 0 where
  pub key : Key
  pub value : Option Amount

-- `raise OrchestrationError(str(error), "invalid_arguments") from error`
abbrev pub as_argument : {A : Type 0} → Result A → Result A
as_argument (ok a) = ok a
as_argument (err internal_error) = err internal_error
as_argument (err code) = err invalid_arguments

abbrev pub override_value : Key → Value → Result Override
override_value k null = ok (record { key = k; value = none })
override_value k value = do
  a ← as_argument (validate_budget_value k.metric value)
  ok (record { key = k; value = some a })

-- Levels and scopes are tuples, metrics a set: a metric without a hash raises.
abbrev pub metric_of : Value → Result String
metric_of (text name) = if contains budget_metrics name then ok name else err invalid_arguments
metric_of (array items) = err internal_error
metric_of (object fields) = err internal_error
metric_of _ = err invalid_arguments

abbrev pub override_of : String → String → Value → Value → Result Override
override_of level scope metric value =
    if contains budget_levels level && contains budget_scopes scope
    then (do name ← metric_of metric; override_value (key level scope name) value)
    else err invalid_arguments

-- `_validated_effective_override`
unfoldable pub validated_effective_override : Value → Result Override
unfolding contains
validated_effective_override
      (array (cons (text level) (cons (text scope) (cons metric (cons value nil))))) =
    override_of level scope metric value
validated_effective_override _ = err invalid_arguments

abbrev pub is_seen : List Key → Key → Bool
is_seen seen k = exists (same_key k) seen

-- The loop over the overrides.
unfoldable pub apply_overrides : List Value → List Key → Thresholds → Result Thresholds
apply_overrides [] seen rows = ok rows
apply_overrides (value ∷ rest) seen rows = do
  o ← validated_effective_override value
  if is_seen seen o.key
      then err invalid_arguments
      else apply_overrides rest (o.key ∷ seen) (put o.key o.value rows)

abbrev pub max_budget_overrides : ℕ
max_budget_overrides = length budget_levels * length budget_scopes * length budget_metrics

abbrev pub enforced : Option String → Policy → Result Policy
enforced none policy = ok policy
enforced (some name) policy =
    if contains budget_enforcement name
    then ok (record policy { enforcement = name })
    else err orchestration_error

unfoldable pub effective_budget_policy : Policy → Option String → List Value → Result Policy
unfolding contains
effective_budget_policy configured enforcement overrides = do
  policy ← enforced enforcement configured
  if leb (length overrides) max_budget_overrides
      then (do
        rows ← apply_overrides overrides [] policy.thresholds
        validate_budget_order invalid_arguments (record policy { thresholds = rows }))
      else err invalid_arguments
