-- ===== src/Specialists/Forced.antt =====
-- `validate_forced_specialists` (specialist_activation.py) and `retained_forced_specialists`
-- (broker_store.py), as the set that the callers make of the result: in the order given.
use pi_tmux_orchestrator.Prelude.{
  ℕ, String, Bool, not, ◌&&◌, ◌||◌, List, [], ◌∷◌, leb, String_eq, if◌then◌else◌, contains, is_some,
}
use pi_tmux_orchestrator.Prelude.Result.{Result, ok, err, ◌>>=◌, orchestration_error}
use pi_tmux_orchestrator.Prelude.Json.{
  Value, null, text, array, Items, nil, cons, Stored, absent, unreadable, decoded,
}
use pi_tmux_orchestrator.Roles.Identity.{valid_custom_role_id}
use pi_tmux_orchestrator.Roles.Contracts.{specialist_of}
use pi_tmux_orchestrator.Protocol.Texts.{item_count}

abbrev pub max_forced_specialists : ℕ
max_forced_specialists = 11

-- An enabled specialist that is not selected yet.
unfoldable pub may_force : List String → List String → String → Bool
unfolding contains
may_force configured selected role =
    (is_some (specialist_of role) || valid_custom_role_id (text role))
    && contains configured role
    && not (contains selected role)

abbrev pub forced_text : List String → List String → Value → Result String
forced_text configured selected (text role) =
    if may_force configured selected role then ok role else err orchestration_error
forced_text configured selected _ = err orchestration_error

unfoldable pub forced_items : List String → List String → Items → Result (List String)
unfolding may_force
forced_items configured selected nil = ok []
forced_items configured selected (cons value rest) = do
  role ← forced_text configured selected value
  more ← forced_items configured (role ∷ selected) rest
  ok (role ∷ more)

unfoldable pub validate_forced_specialists : Value → List String → Result (List String)
unfolding forced_items item_count
validate_forced_specialists null configured = ok []
validate_forced_specialists (array items) configured =
    if leb (item_count items) max_forced_specialists
    then forced_items configured [] items
    else err orchestration_error
validate_forced_specialists _ configured = err orchestration_error

unfoldable pub retained_forced_specialists : Stored → List String → Result (List String)
unfolding validate_forced_specialists
retained_forced_specialists absent configured = ok []
retained_forced_specialists unreadable configured = err orchestration_error
retained_forced_specialists (decoded value) configured =
    validate_forced_specialists value configured
