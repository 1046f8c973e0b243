-- ===== src/Roles/Contracts.antt =====
-- The contract of a role, and what may be assigned to it (role_contracts.py).
use pi_tmux_orchestrator.Prelude.{
  ℕ, ◌+◌, String, Bool, ◌||◌, Option, none, some, List, [], ◌∷◌, leb, ◌==◌, String_eq,
  if◌then◌else◌,
}
use pi_tmux_orchestrator.Prelude.Result.{Result, ok, err, ◌>>=◌, invalid_protocol, forbidden}
use pi_tmux_orchestrator.Prelude.Json.{Value, text, object, null, Fields, end, field}
use pi_tmux_orchestrator.Store.Rows.{Kind, Kind_eq}
use pi_tmux_orchestrator.Roles.Identity.{valid_custom_role_id}

abbrev pub max_custom_roles : ℕ
max_custom_roles = 8

-- SPECIALIST_ROLES, which are also the CONTRACTS of custom roles.
pub data Specialist : Type 0 where
  probe playwright django : Specialist

pub data Contract : Type 0 where
  implementer reviewer : Contract
  specialist : Specialist → Contract

abbrev pub specialist_of : String → Option Specialist
specialist_of name =
    if name == "probe"
    then some probe
    else if name == "playwright"
    then some playwright
    else if name == "django"
    then some django
    else none

abbrev pub specialist_name : Specialist → String
specialist_name probe = "probe"
specialist_name playwright = "playwright"
specialist_name django = "django"

abbrev pub specialist_kind : Specialist → Kind
specialist_kind probe = Kind.probe
specialist_kind playwright = Kind.playwright
specialist_kind django = Kind.django

abbrev pub known_contract : String → Option Contract
known_contract name =
    if name == "implementer"
    then some implementer
    else if name == "reviewer"
    then some reviewer
    else elim (specialist_of name) [ none ↦ none | some s ↦ some (specialist s) ]

-- The bindings of custom roles, in the order of the dict.
abbrev pub Contracts : Type 0
Contracts = List (String × Specialist)

abbrev pub field_count : Fields → ℕ
field_count end = 0
field_count (field name value rest) = 1 + field_count rest

abbrev pub binding : String → Value → Result (String × Specialist)
binding role (text contract) = elim (specialist_of contract) [
  | none ↦ err invalid_protocol
  | some s ↦ if valid_custom_role_id (text role) then ok (role, s) else err invalid_protocol
]
binding role _ = err invalid_protocol

unfoldable pub bindings : Fields → Result Contracts
bindings end = ok []
bindings (field role contract rest) = do
  first ← binding role contract
  more ← bindings rest
  ok (first ∷ more)

unfoldable pub validate_custom_contracts : Value → Result Contracts
validate_custom_contracts null = ok []
validate_custom_contracts (object fields) =
    if leb (field_count fields) max_custom_roles then bindings fields else err invalid_protocol
validate_custom_contracts _ = err invalid_protocol

abbrev pub contracts_fields : Contracts → Fields
contracts_fields [] = end
contracts_fields ((role, s) ∷ rest) = field role (text (specialist_name s)) (contracts_fields rest)

-- The dict that the broker keeps and hands to the validators again.
abbrev pub contracts_value : Contracts → Value
contracts_value contracts = object (contracts_fields contracts)

unfoldable pub contract_of : Contracts → String → Option Specialist
contract_of [] name = none
contract_of ((role, s) ∷ rest) name = if role == name then some s else contract_of rest name

abbrev pub custom_contract : Option Specialist → Result Contract
custom_contract none = err invalid_protocol
custom_contract (some s) = ok (specialist s)

-- A built-in role is its own contract; only other roles are looked up.
abbrev pub resolved : Option Contract → Contracts → String → Result Contract
resolved (some contract) contracts role = ok contract
resolved none contracts role = custom_contract (contract_of contracts role)

abbrev pub resolve_in : Contracts → Value → Result Contract
resolve_in contracts (text role) = resolved (known_contract role) contracts role
resolve_in contracts _ = err invalid_protocol

unfoldable pub resolve_role_contract : Value → Value → Result Contract
resolve_role_contract role custom_contracts = do
  contracts ← validate_custom_contracts custom_contracts
  resolve_in contracts role

unfoldable pub permits : Contract → Kind → Bool
permits implementer kind = kind == Kind.plan || kind == Kind.implementation
permits reviewer kind = kind == Kind.review
permits (specialist s) kind = kind == specialist_kind s

abbrev pub permitted : Kind → Contract → Result (Unit {0})
permitted kind contract = if permits contract kind then ok tt else err forbidden

unfoldable pub validate_assignment_kind : String → Kind → Value → Result (Unit {0})
validate_assignment_kind role kind custom_contracts = do
  contract ← resolve_role_contract (text role) custom_contracts
  permitted kind contract
