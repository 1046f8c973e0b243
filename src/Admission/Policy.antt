-- ===== src/Admission/Policy.antt =====
-- `call_limit`, `parse_call_limit`, `call_policy` and `retained_call_policy` of call_admission.py.
use pi_tmux_orchestrator.Prelude.{
  ℕ, ◌≤◌, String, ◌≡◌, refl, Bool, false, not, ◌&&◌, ◌||◌, Option, none, some, List, [], ◌∷◌, arith,
  leb, ltb, ◌==◌, String_eq, ℕ_eq, if◌then◌else◌,
}
use pi_tmux_orchestrator.Prelude.Result.{Result, ok, err, orchestration_error, ◌>>=◌}
use pi_tmux_orchestrator.Prelude.Json.{
  Value, null, int, object, Fields, end, field, Stored, absent, unreadable, decoded, get,
  keys_within, keys_include,
}
use pi_tmux_orchestrator.Prelude.Text.{len, partition, is_ascii_decimal, to_int}
use pi_tmux_orchestrator.Prelude.Table.{All}

abbrev pub max_call_allowance : ℕ
max_call_allowance = 1000000

pub data Scope : Type 0 where
  run role assignment : Scope

abbrev pub scope_of : String → Option Scope
scope_of name =
    if name == "run"
    then some run
    else if name == "role"
    then some role
    else if name == "assignment"
    then some assignment
    else none

abbrev pub scope_name : Scope → String
scope_name run = "run"
scope_name role = "role"
scope_name assignment = "assignment"

-- The "limits" of a policy, in the order of the dict.
abbrev pub Limits : Type 0
Limits = List (Scope × ℕ)

unfoldable pub call_limit : Value → Result ℕ
call_limit (int n) = if leb 1 n && leb n max_call_allowance then ok n else err orchestration_error
call_limit _ = err orchestration_error

in_scope : Option Scope → ℕ → Result (Scope × ℕ)
in_scope none amount = err orchestration_error
in_scope (some scope) amount = do n ← call_limit (int amount); ok (scope, n)

unfoldable pub parse_call_limit : String → Result (Scope × ℕ)
unfolding call_limit in_scope partition len is_ascii_decimal to_int
parse_call_limit value =
    let (scope, separator, amount) = partition b'=' value in
    if not separator || ltb 7 (len amount) || not (is_ascii_decimal amount)
    then err orchestration_error
    else in_scope (scope_of scope) (to_int amount)

-- {key: call_limit(item) for key, item in value["limits"].items()}, for keys in CALL_SCOPES
unfoldable pub limits_of : Fields → Result Limits
unfolding call_limit
limits_of end = ok []
limits_of (field name item rest) = elim (scope_of name) [
  | none ↦ err orchestration_error
  | some scope ↦ do n ← call_limit item; more ← limits_of rest; ok ((scope, n) ∷ more)
]

limits_field : Option Value → Result Limits
unfolding limits_of
limits_field (some (object fields)) = limits_of fields
limits_field _ = err orchestration_error

is_version_1 : Option Value → Bool
is_version_1 (some (int n)) = n == 1
is_version_1 _ = false

abbrev policy_fields : List String
policy_fields = "version" ∷ "limits" ∷ []

unfoldable pub call_policy : Value → Result Limits
unfolding limits_field is_version_1 get keys_within keys_include
call_policy null = ok []
call_policy (object fields) =
    if keys_within policy_fields fields
      && keys_include policy_fields fields
      && is_version_1 (get "version" fields)
    then limits_field (get "limits" fields)
    else err orchestration_error
call_policy _ = err orchestration_error

-- An object from JSON, read by `call_policy`; any other value is refused.
retained_object : Value → Result Limits
unfolding call_policy
retained_object (object fields) = call_policy (object fields)
retained_object _ = err orchestration_error

missing_policy : Option ℕ → Result Limits
missing_policy none = ok []
missing_policy (some schema) = if leb 13 schema then err orchestration_error else ok []

-- `retained_call_policy`, from the row of the policy and that of the schema's version.
unfoldable pub retained_call_policy : Option ℕ → Stored → Result Limits
unfolding retained_object missing_policy
retained_call_policy schema absent = missing_policy schema
retained_call_policy schema unreadable = err orchestration_error
retained_call_policy schema (decoded value) = retained_object value

-- The dict that `extend_call_allowance` hands to `call_policy` and then to `json.dumps`.
abbrev pub limits_fields : Limits → Fields
limits_fields [] = end
limits_fields ((scope, n) ∷ rest) = field (scope_name scope) (int n) (limits_fields rest)

abbrev pub policy_value : Limits → Value
policy_value limits =
    object (field "version" (int 1) (field "limits" (object (limits_fields limits)) end))

abbrev pub InRange : Scope × ℕ → Type 0
InRange item = (1 ≤ item.1) × (item.1 ≤ max_call_allowance)

pub call_limit-InRange :
    (value : Value) {n : ℕ} → call_limit value ≡ ok n → (1 ≤ n) × (n ≤ max_call_allowance)
unfolding call_limit
call_limit-InRange (int k) h = ground arith
call_limit-InRange _ h = ground arith

pub call_limit_of_InRange : (n : ℕ) → 1 ≤ n → n ≤ max_call_allowance → call_limit (int n) ≡ ok n
unfolding call_limit
call_limit_of_InRange n h k = ground arith

scope_of-scope_name : (scope : Scope) → scope_of (scope_name scope) ≡ some scope
scope_of-scope_name run = refl
scope_of-scope_name role = refl
scope_of-scope_name assignment = refl

limits_of-limits_fields :
    (limits : Limits) → All InRange limits → limits_of (limits_fields limits) ≡ ok limits
unfolding limits_of
limits_of-limits_fields [] h = refl
limits_of-limits_fields ((scope, n) ∷ rest) h = ground (
  arith,
  scope_of-scope_name scope,
  call_limit_of_InRange n h.0.0 h.0.1,
  limits_of-limits_fields rest h.1,
)

-- A policy in range that is written is the policy that is read back.
pub retained_call_policy-policy_value :
    (schema : Option ℕ) (limits : Limits)
    → All InRange limits
    → retained_call_policy schema (decoded (policy_value limits)) ≡ ok limits
unfolding retained_call_policy
retained_call_policy-policy_value schema limits h = limits_of-limits_fields limits h

pub call_policy-policy_value :
    (limits : Limits) → All InRange limits → call_policy (policy_value limits) ≡ ok limits
unfolding call_policy
call_policy-policy_value limits h = limits_of-limits_fields limits h
