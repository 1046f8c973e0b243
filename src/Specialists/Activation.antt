-- ===== src/Specialists/Activation.antt =====
-- `record_specialist_activation` and `public_specialist_activations` (broker_store.py).
use Prim.Native.Char.{code}
use pi_tmux_orchestrator.Prelude.{
  ℕ, String, Bool, true, false, not, ◌&&◌, ◌||◌, Option, none, some, List, [], ◌∷◌, leb, ltb, ◌==◌,
  String_eq, ℕ_eq, if◌then◌else◌, is_some,
}
use pi_tmux_orchestrator.Prelude.Result.{Result, ok, err, orchestration_error, conflict}
use pi_tmux_orchestrator.Prelude.Json.{text}
use pi_tmux_orchestrator.Prelude.Text.{len}
use pi_tmux_orchestrator.Prelude.Table.{select, exists, insert}
use pi_tmux_orchestrator.Store.Rows.{Db, RoleRow, Activation}
use pi_tmux_orchestrator.Store.Writes.{Tx, record_event}
use pi_tmux_orchestrator.Roles.Identity.{valid_custom_role_id, strip_prefix}
use pi_tmux_orchestrator.Roles.Contracts.{specialist_of}

abbrev is_rule_char : ℕ → Bool
is_rule_char n = leb b'a' n && leb n b'z' || leb b'0' n && leb n b'9' || n == b'-'

unfoldable pub all_rule_chars : String → Bool
all_rule_chars String.[] = true
all_rule_chars (String.◌∷◌ c rest) = is_rule_char (code c) && all_rule_chars rest

-- ^[a-z][a-z0-9-]{0,63}$
unfoldable pub is_rule_id : String → Bool
unfolding all_rule_chars len
is_rule_id String.[] = false
is_rule_id (String.◌∷◌ c rest) =
    leb b'a' (code c) && leb (code c) b'z' && all_rule_chars rest && leb (len rest) 63

abbrev pub starts_dash : Option String → Bool
starts_dash (some (String.◌∷◌ c rest)) = code c == b'-'
starts_dash _ = false

-- What the writer and the reader both test of a decision.
unfoldable pub is_valid_activation : Activation → Bool
unfolding is_rule_id strip_prefix
is_valid_activation a =
    (is_some (specialist_of a.role) || valid_custom_role_id (text a.role))
    && (a.decision == "run" || a.decision == "skipped")
    && is_rule_id a.rule_id
    && starts_dash (strip_prefix a.role a.rule_id)

abbrev pub is_same_slot : Activation → Activation → Bool
is_same_slot a x = x.role == a.role && x.round == a.round

abbrev bool_eq : Bool → Bool → Bool
bool_eq true b = b
bool_eq false b = not b

abbrev pub is_same_decision : Activation → Activation → Bool
is_same_decision a x =
    x.decision == a.decision && x.rule_id == a.rule_id && bool_eq x.forced a.forced

abbrev pub is_configured : String → Db → Bool
is_configured role db = exists (λ (r : RoleRow). r.role == role) db.roles

abbrev pub activated : Activation → Db → Db
activated a db =
    record_event "specialist_activation"
      (record {
        role = some a.role;
        round_number = some a.round;
        assignment_id = none;
        delivery_id = none;
        status = a.decision;
      })
      (record db { activations = insert a db.activations })

-- A decision that is there already must be the same.
abbrev pub decide_once : Activation → Option Activation → Tx (Unit {0})
decide_once a none db = ok (tt, activated a db)
decide_once a (some x) db = if is_same_decision a x then ok (tt, db) else err conflict

unfoldable pub record_specialist_activation : Activation → Tx (Unit {0})
record_specialist_activation a db =
    if is_valid_activation a && is_configured a.role db && ltb 0 a.round
    then decide_once a (select (is_same_slot a) db.activations) db
    else err orchestration_error

abbrev pub checked_activation :
    Bool → Activation → Result (List Activation) → Result (List Activation)
checked_activation true a (ok rest) = ok (a ∷ rest)
checked_activation true a (err code) = err code
checked_activation false a rest = err orchestration_error

-- `public_specialist_activations`, as the dict by role that its callers make of it: in any order.
unfoldable pub public_specialist_activations : ℕ → List Activation → Result (List Activation)
public_specialist_activations round [] = ok []
public_specialist_activations round (a ∷ rest) =
    let others = public_specialist_activations round rest in
    if a.round == round then checked_activation (is_valid_activation a) a others else others
