-- ===== src/Budget/Guardrail.antt =====
-- Guardrail frames: `_validate_guardrail_message` (protocol.py) and `handle_guardrail` (broker.py).
use pi_tmux_orchestrator.Prelude.{
  ◌-◌, String, Bool, true, false, not, ◌&&◌, Option, none, some, List, [], ◌∷◌, ltb, ◌==◌,
  String_eq, ℕ_eq, if◌then◌else◌, contains,
}
use pi_tmux_orchestrator.Prelude.Result
use pi_tmux_orchestrator.Prelude.Result.{
  Result, ok, err, forbidden, invalid_protocol, internal_error,
}
use pi_tmux_orchestrator.Prelude.Json.{Value, null, int, neg_int, real, finite, text, Fields, get}
use pi_tmux_orchestrator.Prelude.Table.{select, exists, insert}
use pi_tmux_orchestrator.Store.Rows.{Db, Assignment, Guardrail}
use pi_tmux_orchestrator.Store.Writes
use pi_tmux_orchestrator.Store.Writes.{Tx, record_event}
use pi_tmux_orchestrator.Broker.State.{Client}
use pi_tmux_orchestrator.Broker.Transport.{Exec, ◌>>=◌, transact, reply}
use pi_tmux_orchestrator.Attention.Handlers.{receipt}
use pi_tmux_orchestrator.Worker.Usage.{float_overflow, is_storable}
use pi_tmux_orchestrator.Protocol.Texts.{is_among}
use pi_tmux_orchestrator.Protocol.Identity.{token_of}
use pi_tmux_orchestrator.Budget.Amount.{Amount, whole, at_most, is_positive}
use pi_tmux_orchestrator.Budget.Policy.{Policy, key, threshold, retained_budget_policy}

abbrev pub guardrail_levels : List String
guardrail_levels = "warning" ∷ "hard" ∷ []

abbrev pub guardrail_integer_metrics : List String
guardrail_integer_metrics = "provider_calls" ∷ "context_tokens" ∷ []

abbrev pub guardrail_metrics : List String
guardrail_metrics = "provider_calls" ∷ "context_tokens" ∷ "context_percent" ∷ []

-- A number that is not negative, exactly.
abbrev pub number_of : Value → Option Amount
number_of (int n) = some (whole n)
number_of (real (finite false m e)) = some (record { mantissa = m; exponent = e })
number_of (real (finite true m e)) = if m == 0 then some (whole 0) else none
number_of _ = none

abbrev pub integer_of : Value → Option Amount
integer_of (int n) = some (whole n)
integer_of _ = none

abbrev pub is_huge : Value → Bool
is_huge (int n) = not (ltb n float_overflow)
is_huge (neg_int n) = not (ltb n (float_overflow - 1))
is_huge _ = false

-- `_valid_guardrail_number`, with the number; `math.isfinite` raises for an int that is no float.
unfoldable pub guardrail_number : (integer : Bool) → Value → Result Amount
guardrail_number true value = elim (integer_of value) [
  | some a ↦ ok a
  | none ↦ err invalid_protocol
]
guardrail_number false value =
    if is_huge value
    then err internal_error
    else elim (number_of value) [ some a ↦ ok a | none ↦ err invalid_protocol ]

abbrev pub or_null : Option Value → Value
or_null none = null
or_null (some value) = value

-- A guardrail frame whose fields were checked.
pub record GuardrailMessage : Type 0 where
  pub id : String
  pub assignment_id : String
  pub level : String
  pub metric : String
  pub observed : Value
  pub threshold : Value
  pub limit : Amount

abbrev pub known_text : Bool → Value → Result String
known_text true (text name) = ok name
known_text _ _ = err invalid_protocol

abbrev pub among : List String → Value → Result String
among names value = Result.◌>>=◌ (is_among names value) λ known. known_text known value

abbrev pub is_reached : Amount → Amount → Bool
is_reached observed limit = is_positive limit && at_most limit observed

unfoldable pub validate_guardrail_message : String → Fields → Result GuardrailMessage
unfolding get guardrail_number at_most
validate_guardrail_message id value =
    Result.◌>>=◌ (token_of (get "assignment_id" value)) λ assignment_id.
      Result.◌>>=◌ (among guardrail_levels (or_null (get "level" value))) λ level.
        Result.◌>>=◌ (among guardrail_metrics (or_null (get "metric" value))) λ metric.
          let integer = contains guardrail_integer_metrics metric in
          Result.◌>>=◌ (guardrail_number integer (or_null (get "observed" value))) λ observed.
            Result.◌>>=◌ (guardrail_number integer (or_null (get "threshold" value))) λ limit.
              if is_reached observed limit
              then ok (record {
                id = id;
                assignment_id = assignment_id;
                level = level;
                metric = metric;
                observed = or_null (get "observed" value);
                threshold = or_null (get "threshold" value);
                limit = limit;
              })
              else err invalid_protocol

-- configured == threshold
abbrev pub is_configured : Option Amount → Amount → Bool
is_configured none limit = false
is_configured (some a) limit = at_most a limit && at_most limit a

abbrev pub guardrail_row : Client → GuardrailMessage → Guardrail
guardrail_row client m = record {
  assignment_id = m.assignment_id;
  role = client.role;
  level = m.level;
  metric = m.metric;
  observed = m.observed;
  threshold = m.threshold;
}

-- PRIMARY KEY(assignment_id, level)
abbrev pub same_slot : GuardrailMessage → Guardrail → Bool
same_slot m g = g.assignment_id == m.assignment_id && g.level == m.level

abbrev pub crossed : Client → GuardrailMessage → Assignment → Db → Db
crossed client m a db =
    record_event "assignment_guardrail"
      (record {
        role = some client.role;
        round_number = some a.round;
        assignment_id = some m.assignment_id;
        delivery_id = none;
        status = m.level;
      })
      (record db { guardrails = insert (guardrail_row client m) db.guardrails })

-- INSERT OR IGNORE: whether the row was there.
abbrev pub insert_or_ignore : Client → GuardrailMessage → Assignment → Tx Bool
insert_or_ignore client m a db =
    if not (is_storable m.observed && is_storable m.threshold)
    then err internal_error
    else if exists (same_slot m) db.guardrails
    then ok (true, db)
    else ok (false, crossed client m a db)

abbrev pub if_configured : Client → GuardrailMessage → Assignment → Policy → Tx Bool
if_configured client m a policy =
    if is_configured (threshold (key m.level "assignment" m.metric) policy.thresholds) m.limit
    then insert_or_ignore client m a
    else Writes.raise forbidden

abbrev pub for_assignment : Client → GuardrailMessage → Option Assignment → Tx Bool
for_assignment client m none db = err forbidden
for_assignment client m (some a) db =
    if a.role == client.role
    then Writes.◌>>=◌ (Writes.lift (retained_budget_policy db.meta.budget_policy))
        (if_configured client m a) db
    else err forbidden

unfoldable pub guardrail_tx : Client → GuardrailMessage → Tx Bool
guardrail_tx client m db =
    for_assignment client m (select (λ (a : Assignment). a.id == m.assignment_id) db.assignments) db

unfoldable pub handle_guardrail : Client → GuardrailMessage → Exec (Unit {0})
handle_guardrail client m = do
  duplicate ← transact (guardrail_tx client m)
  reply client m.id true (receipt duplicate)
