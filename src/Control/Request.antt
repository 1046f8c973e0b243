-- ===== src/Control/Request.antt =====
-- The validation of a control message, at the start of `handle_control` (broker_control.py).
use Prim.Native.Char.{code}
use Prim.Native.Nat.{◌^◌}
use pi_tmux_orchestrator.Prelude.{
  ℕ, String, Bool, true, false, not, ◌&&◌, ◌||◌, Option, none, some, List, [], ◌∷◌, leb, ◌==◌,
  String_eq, ℕ_eq, if◌then◌else◌, contains,
}
use pi_tmux_orchestrator.Prelude.Result.{Result, ok, err, ◌>>=◌, invalid_protocol}
use pi_tmux_orchestrator.Prelude.Json.{
  Value, null, int, bool, real, finite, text, Fields, get, keys_within, keys_include,
}
use pi_tmux_orchestrator.Prelude.Text.{len, is_ascii_decimal, to_int}
use pi_tmux_orchestrator.Attention.Validate.{is_blank}
use pi_tmux_orchestrator.Roles.Identity.{strip_prefix}
use pi_tmux_orchestrator.Admission.Policy.{call_limit}
use pi_tmux_orchestrator.Protocol.Texts.{is_among}
use pi_tmux_orchestrator.Protocol.Report.{has_exactly}
use pi_tmux_orchestrator.Protocol.Identity.{is_token}

pub data Action : Type 0 where
  send abort restart restart_failed repair extend_calls : Action

abbrev pub action_name : Action → String
action_name send = "send"
action_name abort = "abort"
action_name restart = "restart"
action_name restart_failed = "restart_failed"
action_name repair = "continue"
action_name extend_calls = "extend_calls"

abbrev pub action_of : String → Option Action
action_of name =
    if name == "send"
    then some send
    else if name == "abort"
    then some abort
    else if name == "restart"
    then some restart
    else if name == "restart_failed"
    then some restart_failed
    else if name == "continue"
    then some repair
    else if name == "extend_calls"
    then some extend_calls
    else none

-- A valid command; `extension` is the number of calls that `extend_calls` adds.
pub record Command : Type 0 where
  pub id : String
  pub token : String
  pub role : String
  pub action : Action
  pub delivery : Option String
  pub extension : ℕ

abbrev pub control_fields : List String
control_fields =
    "version" ∷ "type" ∷ "token" ∷ "id" ∷ "action" ∷ "role" ∷ "delivery" ∷ "message" ∷ []

-- message.get("version") == 1, which `true` and 1.0 satisfy as well
abbrev pub is_one : Option Value → Bool
is_one (some (int n)) = n == 1
is_one (some (bool b)) = b
is_one (some (real (finite false m e))) = m == 2 ^ e
is_one _ = false

abbrev pub is_canonical : String → Bool
is_canonical String.[] = false
is_canonical (String.◌∷◌ c rest) = not (code c == b'0')

-- The digits after `calls:+`, written as the number is printed.
abbrev pub extension_digits : String → Option String → Result ℕ
extension_digits delivery none = err invalid_protocol
extension_digits delivery (some digits) =
    if not (leb (len delivery) 14) || not (is_ascii_decimal digits)
    then err invalid_protocol
    else (do
      extension ← call_limit (int (to_int digits))
      if is_canonical digits then ok extension else err invalid_protocol)

unfoldable pub call_extension : Option Value → Result ℕ
unfolding len is_ascii_decimal to_int call_limit strip_prefix
call_extension (some (text delivery)) = extension_digits delivery (strip_prefix "calls:+" delivery)
call_extension _ = err invalid_protocol

abbrev pub is_extension : Option Value → Bool
is_extension (some (text name)) = name == "extend_calls"
is_extension _ = false

abbrev pub extension_for : Option Value → Option Value → Result ℕ
extension_for action delivery = if is_extension action then call_extension delivery else ok 0

abbrev pub refused_unless : Bool → Result (Unit {0})
refused_unless test = if test then ok tt else err invalid_protocol

abbrev pub is_token_value : Option Value → Bool
is_token_value (some (text s)) = is_token s
is_token_value _ = false

abbrev pub is_role_value : List String → Option Value → Bool
is_role_value roles (some (text role)) = contains roles role
is_role_value roles _ = false

abbrev pub text_or_empty : Option Value → String
text_or_empty (some (text s)) = s
text_or_empty _ = ""

abbrev pub or_null : Option Value → Value
or_null none = null
or_null (some value) = value

abbrev pub known_actions : List String
known_actions = "send" ∷ "abort" ∷ "restart" ∷ "restart_failed" ∷ "continue" ∷ "extend_calls" ∷ []

-- action in {…}: a list or a dict has no hash, and raises.
abbrev pub action_in : Bool → Value → Result Action
action_in true (text name) = elim (action_of name) [
  | some action ↦ ok action
  | none ↦ err invalid_protocol
]
action_in _ _ = err invalid_protocol

abbrev pub checked_action : Value → Result Action
checked_action value = do known ← is_among known_actions value; action_in known value

-- action in {"continue", "extend_calls"} and role != "implementer"
abbrev pub is_for_role : Action → String → Bool
is_for_role repair role = role == "implementer"
is_for_role extend_calls role = role == "implementer"
is_for_role _ role = true

-- delivery in {None, "steer", "follow-up"}
abbrev pub is_delivery : Value → Result Bool
is_delivery null = ok true
is_delivery value = is_among ("steer" ∷ "follow-up" ∷ []) value

abbrev pub delivery_for : Action → Value → Result Bool
delivery_for extend_calls value = ok true
delivery_for _ value = is_delivery value

abbrev pub is_null : Value → Bool
is_null null = true
is_null _ = false

abbrev pub is_body : Value → Bool
is_body (text body) = not (is_blank body)
is_body _ = false

-- Only `send` has a body, and only `send` and `extend_calls` have a delivery.
abbrev pub body_for : Action → Value → Value → Bool
body_for send body delivery = is_body body
body_for extend_calls body delivery = is_null body
body_for _ body delivery = is_null body && is_null delivery

abbrev pub delivery_text : Value → Option String
delivery_text (text delivery) = some delivery
delivery_text _ = none

module _ (roles : List String) where
  abbrev pub command_of : Fields → ℕ → Result Command
  command_of m extension = do
    identified ← refused_unless (
        is_token_value (get "id" m)
        && is_token_value (get "token" m)
        && is_role_value roles (get "role" m))
    action ← checked_action (or_null (get "action" m))
    fits ← refused_unless (is_for_role action (text_or_empty (get "role" m)))
    deliverable ← delivery_for action (or_null (get "delivery" m))
    delivered ← refused_unless deliverable
    bodied ←
        refused_unless (body_for action (or_null (get "message" m)) (or_null (get "delivery" m)))
    ok (record {
      id = text_or_empty (get "id" m);
      token = text_or_empty (get "token" m);
      role = text_or_empty (get "role" m);
      action = action;
      delivery = delivery_text (or_null (get "delivery" m));
      extension = extension;
    })

  -- The checks before the transaction; the text of `send` is left out.
  unfoldable pub validate_control : Fields → Result Command
  unfolding get keys_within keys_include call_extension is_token contains
  validate_control m =
      if has_exactly control_fields m && is_one (get "version" m)
      then extension_for (get "action" m) (get "delivery" m) >>= command_of m
      else err invalid_protocol
