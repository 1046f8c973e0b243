-- ===== src/Budget/Amount.antt =====
-- Thresholds: their metrics and values (budgeting.py).
use Prim.Native.Nat.{◌^◌}
use pi_tmux_orchestrator.Prelude.{
  ℕ, ◌*◌, ◌-◌, String, Bool, false, ◌&&◌, List, [], ◌∷◌, ◌++◌, leb, ltb, ◌==◌, String_eq, ℕ_eq,
  if◌then◌else◌, contains,
}
use pi_tmux_orchestrator.Prelude.Result.{Result, ok, err, orchestration_error, internal_error}
use pi_tmux_orchestrator.Prelude.Json.{Value, int, neg_int, real, finite}
use pi_tmux_orchestrator.Worker.Usage.{float_overflow}

abbrev pub budget_levels : List String
budget_levels = "warning" ∷ "hard" ∷ []

abbrev pub budget_scopes : List String
budget_scopes = "run" ∷ "role" ∷ "assignment" ∷ []

abbrev pub budget_integer_metrics : List String
budget_integer_metrics =
    "provider_calls" ∷ "input_tokens" ∷ "output_tokens" ∷ "cache_read_tokens" ∷ "cache_write_tokens"
    ∷ "reasoning_tokens" ∷ "operational_tokens" ∷ "context_tokens" ∷ []

abbrev pub budget_number_metrics : List String
budget_number_metrics = "cost_total" ∷ "context_percent" ∷ []

abbrev pub budget_metrics : List String
budget_metrics = budget_integer_metrics ++ budget_number_metrics

abbrev pub max_budget_integer : ℕ
max_budget_integer = 10 ^ 12

abbrev pub max_budget_cost : ℕ
max_budget_cost = 10 ^ 9

-- The number m / 2 ^ e.
pub record Amount : Type 0 where
  pub mantissa : ℕ
  pub exponent : ℕ

abbrev pub whole : ℕ → Amount
whole n = record { mantissa = n; exponent = 0 }

-- a <= b
unfoldable pub at_most : Amount → Amount → Bool
at_most a b = leb (a.mantissa * 2 ^ b.exponent) (b.mantissa * 2 ^ a.exponent)

abbrev pub is_positive : Amount → Bool
is_positive a = ltb 0 a.mantissa

abbrev pub maximum_of : String → ℕ
maximum_of metric = if metric == "context_percent" then 100 else max_budget_cost

abbrev pub in_range : Amount → String → Result Amount
in_range a metric =
    if is_positive a && at_most a (whole (maximum_of metric)) then ok a else err orchestration_error

-- A number as a float, which none of at least `float_overflow` is.
abbrev pub number_value : String → Value → Result Amount
number_value metric (int n) =
    if ltb n float_overflow then in_range (whole n) metric else err internal_error
number_value metric (neg_int n) =
    if ltb n (float_overflow - 1) then err orchestration_error else err internal_error
number_value metric (real (finite false m e)) =
    in_range (record { mantissa = m; exponent = e }) metric
number_value metric _ = err orchestration_error

abbrev pub integer_value : Value → Result Amount
integer_value (int n) =
    if leb 1 n && leb n max_budget_integer then ok (whole n) else err orchestration_error
integer_value _ = err orchestration_error

unfoldable pub validate_budget_value : String → Value → Result Amount
unfolding at_most contains
validate_budget_value metric value =
    if contains budget_integer_metrics metric
    then integer_value value
    else if contains budget_number_metrics metric
    then number_value metric value
    else err orchestration_error
