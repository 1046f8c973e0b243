-- ===== src/Budget/Examples.antt =====
-- Tests of budgets and guardrails.
use pi_tmux_orchestrator.Prelude.{◌≤◌, ◌≡◌, refl, false, none, [], ◌∷◌, contains}
use pi_tmux_orchestrator.Prelude.Result.{ok, err, invalid_arguments, orchestration_error}
use pi_tmux_orchestrator.Prelude.Json.{
  Value, int, text, array, object, nil, cons, field, end, get, keys_within, decoded,
}
use pi_tmux_orchestrator.Prelude.Table.{select, exists, length}
use pi_tmux_orchestrator.Store.Rows.{Db}
use pi_tmux_orchestrator.Store.Writes.{delete}
use pi_tmux_orchestrator.Store.Samples.{sample, first_assignment}
use pi_tmux_orchestrator.Broker.State.{Client}
use pi_tmux_orchestrator.Budget.Amount.{whole, at_most, validate_budget_value}
use pi_tmux_orchestrator.Budget.Policy.{
  Key, key, Policy, threshold, without, packaged_budget_policy, all_below, merge_metrics,
  merge_scopes, configured_policy, validate_budget_config, retained_budget_policy,
  validated_effective_override, apply_overrides, effective_budget_policy,
}
use pi_tmux_orchestrator.Budget.Order.{IsOrdered}
use pi_tmux_orchestrator.Budget.Effective.{
  chosen, effective_budget_policy-chosen, validate_budget_config-IsOrdered,
}
use pi_tmux_orchestrator.Budget.Guardrail.{GuardrailMessage, guardrail_tx, crossed}
use pi_tmux_orchestrator.Budget.Crossed.{IsOwned, Recorded, guardrail_tx-Recorded}

-- At most 40 provider calls for an assignment.
abbrev calls_key : Key
calls_key = key "hard" "assignment" "provider_calls"

abbrev forty_calls : Value
forty_calls = array (
    cons (text "hard")
      (cons (text "assignment") (cons (text "provider_calls") (cons (int 40) nil))))

abbrev with_calls : Policy
with_calls = record {
  enforcement = "warn-only";
  thresholds =
      (calls_key, whole 40)
      ∷ (key "warning" "run" "operational_tokens", whole 600000)
      ∷ (key "warning" "role" "operational_tokens", whole 200000)
      ∷ [];
}

override_is_applied :
    effective_budget_policy packaged_budget_policy none (forty_calls ∷ []) ≡ ok with_calls
unfolding effective_budget_policy apply_overrides validated_effective_override validate_budget_value
    packaged_budget_policy contains exists without delete all_below threshold at_most
override_is_applied = refl

effective_budget_policy-chosen_example :
    (threshold calls_key with_calls.thresholds
      ≡ chosen calls_key (forty_calls ∷ []) (threshold calls_key packaged_budget_policy.thresholds))
    × IsOrdered with_calls
    × (length (forty_calls ∷ []) ≤ 60)
effective_budget_policy-chosen_example =
    effective_budget_policy-chosen packaged_budget_policy none (forty_calls ∷ [])
      override_is_applied calls_key

repeated_override :
    effective_budget_policy packaged_budget_policy none (forty_calls ∷ forty_calls ∷ [])
    ≡ err invalid_arguments
unfolding effective_budget_policy apply_overrides validated_effective_override validate_budget_value
    packaged_budget_policy contains exists without delete all_below threshold at_most
repeated_override = refl

abbrev scoped : Value → Value
scoped calls = object (field "assignment" (object (field "provider_calls" calls end)) end)

abbrev config : Value → Value → Value
config warning hard =
    object
      (field "version" (int 1) (field "warning" (scoped warning) (field "hard" (scoped hard) end)))

abbrev configured : Policy
configured = record {
  enforcement = "warn-only";
  thresholds =
      (calls_key, whole 40)
      ∷ (key "warning" "assignment" "provider_calls", whole 30)
      ∷ (key "warning" "run" "operational_tokens", whole 600000)
      ∷ (key "warning" "role" "operational_tokens", whole 200000)
      ∷ [];
}

config_is_valid : validate_budget_config (config (int 30) (int 40)) ≡ ok configured
unfolding validate_budget_config configured_policy get keys_within contains packaged_budget_policy
    merge_scopes merge_metrics validate_budget_value without delete all_below threshold at_most
config_is_valid = refl

validate_budget_config-IsOrdered_example : IsOrdered configured
validate_budget_config-IsOrdered_example =
    validate_budget_config-IsOrdered (config (int 30) (int 40)) config_is_valid

late_warning : validate_budget_config (config (int 50) (int 40)) ≡ err orchestration_error
unfolding validate_budget_config configured_policy get keys_within contains packaged_budget_policy
    merge_scopes merge_metrics validate_budget_value without delete all_below threshold at_most
late_warning = refl

abbrev budgeted : Db
budgeted = record sample {
  meta = record sample.meta { budget_policy = decoded (config (int 30) (int 40)) };
}

abbrev client : Client
client = record { role = "implementer"; generation = 1 }

abbrev crossing : GuardrailMessage
crossing = record {
  id = "m1";
  assignment_id = "a1";
  level = "hard";
  metric = "provider_calls";
  observed = int 41;
  threshold = int 40;
  limit = whole 40;
}

crossing_is_recorded :
    guardrail_tx client crossing budgeted
    ≡ ok (false, crossed client crossing first_assignment budgeted)
unfolding guardrail_tx select retained_budget_policy validate_budget_config configured_policy get
    keys_within contains packaged_budget_policy merge_scopes merge_metrics validate_budget_value
    without delete all_below threshold at_most exists
crossing_is_recorded = refl

guardrail_tx-Recorded_example :
    IsOwned client crossing budgeted
    × Recorded client crossing budgeted false (crossed client crossing first_assignment budgeted)
guardrail_tx-Recorded_example = guardrail_tx-Recorded client crossing budgeted crossing_is_recorded
