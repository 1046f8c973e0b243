-- ===== src/Continuation/Policy.antt =====
-- The retained policy of repair rounds (continuation.py).
use pi_tmux_orchestrator.Prelude.{
  ℕ, ◌+◌, max, String, Bool, true, false, not, ◌&&◌, ◌||◌, Option, none, some, List, [], ◌∷◌, leb,
  ltb, ◌==◌, String_eq, ℕ_eq, contains, if◌then◌else◌, is_some,
}
use pi_tmux_orchestrator.Prelude.Result.{Result, ok, err, ◌>>=◌, orchestration_error, conflict}
use pi_tmux_orchestrator.Prelude.Json.{
  Value, null, int, object, end, field, Stored, absent, unreadable, decoded, get, keys_within,
  keys_include,
}
use pi_tmux_orchestrator.Prelude.Table.{exists, length}
use pi_tmux_orchestrator.Store.Rows.{
  Db, Assignment, RoleRow, RoleState, WorkflowState, Kind, Kind_eq,
}

abbrev pub max_repair_rounds : ℕ
max_repair_rounds = 1000000

-- The limit of a policy; `none` is no limit.
unfoldable pub validate_repair_limit : Value → Result (Option ℕ)
validate_repair_limit null = ok none
validate_repair_limit (int n) =
    if leb n max_repair_rounds then ok (some n) else err orchestration_error
validate_repair_limit _ = err orchestration_error

abbrev pub limit_value : Option ℕ → Value
limit_value none = null
limit_value (some n) = int n

abbrev pub policy_fields : List String
policy_fields = "version" ∷ "max_repair_rounds" ∷ []

-- `repair_policy`, the dict that is retained.
abbrev pub policy_value : Option ℕ → Value
policy_value limit =
    object (field "version" (int 1) (field "max_repair_rounds" (limit_value limit) end))

abbrev pub version_1 : Option Value → Bool
version_1 (some (int n)) = n == 1
version_1 _ = false

abbrev pub limit_field : Option Value → Result (Option ℕ)
limit_field (some value) = validate_repair_limit value
limit_field none = err orchestration_error

abbrev pub missing_policy : Option ℕ → Result (Option ℕ)
missing_policy none = ok none
missing_policy (some schema) = if leb 9 schema then err orchestration_error else ok none

unfoldable pub read_policy : Value → Result (Option ℕ)
unfolding validate_repair_limit get keys_within keys_include
read_policy (object fields) =
    if keys_within policy_fields fields
      && keys_include policy_fields fields
      && version_1 (get "version" fields)
    then limit_field (get "max_repair_rounds" fields)
    else err orchestration_error
read_policy _ = err orchestration_error

-- `retained_repair_policy`, from the row of the policy and that of the schema's version.
unfoldable pub retained_repair_policy : Option ℕ → Stored → Result (Option ℕ)
retained_repair_policy schema absent = missing_policy schema
retained_repair_policy schema unreadable = err orchestration_error
retained_repair_policy schema (decoded value) = read_policy value

-- role='implementer' AND kind='implementation' AND round>1
abbrev pub is_repair : Assignment → Bool
is_repair a = a.role == "implementer" && a.kind == Kind.implementation && ltb 1 a.round

-- The rounds of these assignments, each once.
unfoldable pub distinct_rounds : List Assignment → List ℕ
unfolding contains
distinct_rounds [] = []
distinct_rounds (a ∷ rest) =
    let rounds = distinct_rounds rest in
    if is_repair a && not (contains rounds a.round) then a.round ∷ rounds else rounds

-- SELECT COUNT(DISTINCT round) …
abbrev pub rounds_admitted : Db → ℕ
rounds_admitted db = length (distinct_rounds db.assignments)

pub record Status : Type 0 where
  pub limit : Option ℕ
  pub repair_rounds_admitted : ℕ
  pub pending_repair_round : Option ℕ

abbrev pub is_bad_pending : Option ℕ → Bool
is_bad_pending none = false
is_bad_pending (some round) = ltb round 2

abbrev pub policy : Db → Result (Option ℕ)
policy db = retained_repair_policy db.meta.schema_version db.meta.continuation_policy

unfoldable pub continuation_status : Db → Result Status
continuation_status db = do
  limit ← policy db
  if is_bad_pending db.meta.pending_repair_round
      then err orchestration_error
      else ok (record {
        limit = limit;
        repair_rounds_admitted = rounds_admitted db;
        pending_repair_round = db.meta.pending_repair_round;
      })

abbrev pub is_used_up : Status → Bool
is_used_up status = elim status.limit [
  | none ↦ false
  | some limit ↦ leb limit status.repair_rounds_admitted
]

unfoldable pub repair_limit_reached : String → Kind → ℕ → Db → Result Bool
repair_limit_reached role kind round_number db =
    if not (role == "implementer") || not (kind == Kind.implementation) || leb round_number 1
    then ok false
    else (do status ← continuation_status db; ok (is_used_up status))

-- active_assignment_id IS NOT NULL OR state IN ('active','waiting','restarting',…)
abbrev pub is_busy_state : RoleState → Bool
is_busy_state RoleState.active = true
is_busy_state RoleState.waiting = true
is_busy_state RoleState.restarting = true
is_busy_state RoleState.recovering = true
is_busy_state RoleState.uncertain = true
is_busy_state _ = false

abbrev pub is_busy : RoleRow → Bool
is_busy r = is_some r.active_assignment_id || is_busy_state r.state

abbrev pub needs_attention : WorkflowState → Bool
needs_attention WorkflowState.needs_attention = true
needs_attention _ = false

-- The last step of the approval: both the round that waits and the limit are there.
abbrev pub approved : ℕ → Bool → Option ℕ → Option ℕ → Result (ℕ × Option ℕ)
approved used safe (some round) (some limit) =
    if safe
    then (do raised ← validate_repair_limit (int (max limit used + 1)); ok (round, raised))
    else err conflict
approved used safe _ _ = err conflict

-- The round to admit, and the limit to retain.
unfoldable pub approved_repair_extension : Db → Result (ℕ × Option ℕ)
unfolding exists
approved_repair_extension db = do
  status ← continuation_status db
  approved status.repair_rounds_admitted
      (needs_attention db.meta.workflow_state && not (exists is_busy db.roles))
      status.pending_repair_round status.limit
