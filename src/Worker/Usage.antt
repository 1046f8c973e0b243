-- ===== src/Worker/Usage.antt =====
-- `_valid_usage` (broker_workflow.py) and `_usage_fields` (broker.py).
use Prim.Native.Nat.{◌^◌}
use pi_tmux_orchestrator.Prelude.{
  ℕ, ◌-◌, String, Bool, true, false, not, ◌&&◌, ◌||◌, Option, none, some, List, [], ◌∷◌, ◌++◌, ltb,
  ◌==◌, String_eq, ℕ_eq, if◌then◌else◌, is_some,
}
use pi_tmux_orchestrator.Prelude.Result.{Result, ok, err, ◌>>=◌, internal_error, invalid_protocol}
use pi_tmux_orchestrator.Prelude.Json.{
  Value, null, int, real, finite, not_finite, object, Fields, get, keys_within, keys_include,
}
use pi_tmux_orchestrator.Store.Rows.{Usage, RoleRow}

-- type(value) is int and value >= 0
abbrev pub is_count : Option Value → Bool
is_count (some (int n)) = true
is_count _ = false

-- value is None, or a count
abbrev pub is_optional_count : Option Value → Bool
is_optional_count none = true
is_optional_count (some null) = true
is_optional_count value = is_count value

abbrev pub all_counts : List String → Fields → Bool
all_counts [] usage = true
all_counts (key ∷ rest) usage = is_count (get key usage) && all_counts rest usage

abbrev pub all_optional_counts : List String → Fields → Bool
all_optional_counts [] usage = true
all_optional_counts (key ∷ rest) usage =
    is_optional_count (get key usage) && all_optional_counts rest usage

-- From here on an int rounds to no float, and `math.isfinite` raises.
abbrev pub float_overflow : ℕ
float_overflow = 2 ^ 1024 - 2 ^ 970

-- An int or a float that is finite and not negative.
abbrev pub is_amount : Value → Result Bool
is_amount (int n) = if ltb n float_overflow then ok true else err internal_error
is_amount (Value.neg_int n) = if ltb n (float_overflow - 1) then ok false else err internal_error
is_amount (real (finite negative m e)) = ok (not negative || m == 0)
is_amount (real not_finite) = ok false
is_amount _ = ok false

abbrev pub is_optional_amount : Option Value → Result Bool
is_optional_amount none = ok true
is_optional_amount (some null) = ok true
is_optional_amount (some value) = is_amount value

abbrev pub total_amount : Option Value → Result Bool
total_amount none = ok false
total_amount (some value) = is_amount value

-- usage["cost"], an object of a total only
unfoldable pub is_cost : Option Value → Result Bool
unfolding get keys_within
is_cost (some (object cost)) =
    if keys_within ("total" ∷ []) cost then total_amount (get "total" cost) else ok false
is_cost _ = ok false

abbrev pub required_fields : Bool → List String
required_fields require_provider_calls =
    "input"
    ∷ "output"
    ∷ "cacheRead"
    ∷ "cacheWrite"
    ∷ (if require_provider_calls then "providerCalls" ∷ [] else [])

abbrev pub optional_fields : Bool → List String
optional_fields allow_peak_context =
    "providerCalls"
    ∷ "reasoning"
    ∷ "contextTokens"
    ∷ "contextWindow"
    ∷ "contextPercent"
    ∷ (if allow_peak_context then "peakContextTokens" ∷ [] else [])

-- The fields and the counts that need no float.
unfoldable pub has_counts : (require_provider_calls allow_peak_context : Bool) → Fields → Bool
unfolding get keys_within keys_include
has_counts require_provider_calls allow_peak_context usage =
    keys_include ("cost" ∷ required_fields require_provider_calls) usage
    && keys_within
        ("cost" ∷ required_fields require_provider_calls ++ optional_fields allow_peak_context)
        usage
    && all_counts (required_fields require_provider_calls) usage
    && all_optional_counts ("providerCalls" ∷ "reasoning" ∷ []) usage

-- What is left to test, once the cost is.
abbrev pub valid_context : Fields → Bool → Result Bool
valid_context usage cost =
    if cost
      && all_optional_counts ("contextTokens" ∷ "contextWindow" ∷ "peakContextTokens" ∷ []) usage
    then is_optional_amount (get "contextPercent" usage)
    else ok false

unfoldable pub valid_fields :
    (require_provider_calls allow_peak_context : Bool) → Fields → Result Bool
unfolding get
valid_fields require_provider_calls allow_peak_context usage =
    if has_counts require_provider_calls allow_peak_context usage
    then is_cost (get "cost" usage) >>= valid_context usage
    else ok false

-- `_valid_usage`
unfoldable pub valid_usage :
    (require_provider_calls allow_peak_context : Bool) → Value → Result Bool
valid_usage require_provider_calls allow_peak_context (object usage) =
    valid_fields require_provider_calls allow_peak_context usage
valid_usage require_provider_calls allow_peak_context _ = ok false

abbrev pub refused_unless : {A : Type 0} → Bool → A → Result A
refused_unless true value = ok value
refused_unless false value = err invalid_protocol

abbrev pub fields_of : Value → Option Fields
fields_of (object usage) = some usage
fields_of _ = none

-- if usage is not None and not self._valid_usage(usage): invalid_protocol
unfoldable pub checked_usage : (require_provider_calls : Bool) → Value → Result (Option Fields)
checked_usage require_provider_calls null = ok none
checked_usage require_provider_calls value = do
  valid ← valid_usage require_provider_calls false value
  refused_unless valid (fields_of value)

-- usage.get(key)
abbrev pub column : Option Value → Value
column none = null
column (some value) = value

abbrev pub total_of : Option Value → Value
total_of (some (object cost)) = column (get "total" cost)
total_of _ = null

-- `_usage_fields`, on the row that is updated.
unfoldable pub with_usage : Fields → Usage → Usage
unfolding get
with_usage usage old = record {
  provider_calls =
      if is_some (get "providerCalls" usage)
      then column (get "providerCalls" usage)
      else old.provider_calls;
  input_tokens = column (get "input" usage);
  output_tokens = column (get "output" usage);
  cache_read_tokens = column (get "cacheRead" usage);
  cache_write_tokens = column (get "cacheWrite" usage);
  reasoning_tokens = column (get "reasoning" usage);
  cost_total = total_of (get "cost" usage);
  context_tokens = column (get "contextTokens" usage);
  context_window = column (get "contextWindow" usage);
  context_percent = column (get "contextPercent" usage);
}

-- SQLite stores integers of 64 bits; binding a larger one raises.
abbrev pub is_storable : Value → Bool
is_storable (int n) = ltb n (2 ^ 63)
is_storable _ = true

abbrev pub is_storable_usage : Usage → Bool
is_storable_usage u =
    is_storable u.provider_calls
    && is_storable u.input_tokens
    && is_storable u.output_tokens
    && is_storable u.cache_read_tokens
    && is_storable u.cache_write_tokens
    && is_storable u.reasoning_tokens
    && is_storable u.cost_total
    && is_storable u.context_tokens
    && is_storable u.context_window
    && is_storable u.context_percent

abbrev pub usage_row : Option Fields → RoleRow → RoleRow
usage_row none r = r
usage_row (some usage) r = record r { usage = with_usage usage r.usage }
