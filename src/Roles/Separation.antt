-- ===== src/Roles/Separation.antt =====
-- Custom roles are kept apart from the work of the built-in ones (role_contracts.py).
use pi_tmux_orchestrator.Prelude.{
  String, ◌≡◌, true, some, arith, String_eq, eq_iff, Option-cases, inl, inr, ◌⊎◌,
}
use pi_tmux_orchestrator.Prelude.Result.{ok, Result-cases}
use pi_tmux_orchestrator.Prelude.Json.{Value}
use pi_tmux_orchestrator.Store.Rows.{Kind, Kind_eq}
use pi_tmux_orchestrator.Roles.Contracts.{
  Specialist, Contract, implementer, reviewer, specialist, Contracts, known_contract,
  validate_custom_contracts, resolve_role_contract, resolved, contract_of, permits,
  validate_assignment_kind,
}

known_implementer : (role : String) → known_contract role ≡ some implementer → role ≡ "implementer"
known_implementer role h = ground (arith, eq_iff role "implementer")

known_reviewer : (role : String) → known_contract role ≡ some reviewer → role ≡ "reviewer"
known_reviewer role h = ground (arith, eq_iff role "reviewer")

contract-ok :
    (role : String) (kind : Kind) (custom : Value)
    → validate_assignment_kind role kind custom ≡ ok tt
    → (contracts : Contracts) × (contract : Contract) × (resolved
          (known_contract role)
          contracts
          role
        ≡ ok contract)
      × (permits contract kind ≡ true)
unfolding validate_assignment_kind resolve_role_contract
contract-ok role kind custom h = elim (Result-cases (validate_custom_contracts custom)) [
  | inr (c, e) ↦ absurd (ground (arith, e))
  | inl (contracts, e) ↦ elim (Result-cases (resolved (known_contract role) contracts role)) [
    | inr (c, f) ↦ absurd (ground (arith, e, f))
    | inl (contract, f) ↦ (contracts, contract, f, ground (arith, e, f))
  ]
]

resolved-known :
    (role : String) (contracts : Contracts) {contract : Contract}
    → resolved (known_contract role) contracts role ≡ ok contract
    → (known_contract role ≡ some contract) ⊎ ((s : Specialist) × (contract ≡ specialist s))
resolved-known role contracts {contract} h = elim (Option-cases (known_contract role)) [
  | inl unknown ↦ elim (Option-cases (contract_of contracts role)) [
    | inl missing ↦ absurd (ground (arith, unknown, missing))
    | inr (s, found) ↦ inr (s, ground (arith, unknown, found))
  ]
  | inr (known, e) ↦ inl (ground (arith, e))
]

-- Who may be given work of this kind.
abbrev pub Separated : String → Kind → Type 0
Separated role Kind.plan = role ≡ "implementer"
Separated role Kind.implementation = role ≡ "implementer"
Separated role Kind.review = role ≡ "reviewer"
Separated role _ = Unit

separate_known :
    (role : String) (kind : Kind) (contract : Contract)
    → permits contract kind ≡ true
    → known_contract role ≡ some contract
    → Separated role kind
unfolding permits
separate_known role Kind.plan implementer p k = known_implementer role k
separate_known role Kind.implementation implementer p k = known_implementer role k
separate_known role Kind.review reviewer p k = known_reviewer role k
separate_known role kind contract p k = ground arith

separate_custom :
    (role : String) (kind : Kind) (s : Specialist)
    → permits (specialist s) kind ≡ true
    → Separated role kind
unfolding permits
separate_custom role kind s p = ground arith

-- Whatever the bindings of custom roles, only the built-in implementer may be given a plan or an
-- implementation, and only the built-in reviewer a review.
pub validate_assignment_kind-Separated :
    (role : String) (kind : Kind) (custom : Value)
    → validate_assignment_kind role kind custom ≡ ok tt
    → Separated role kind
validate_assignment_kind-Separated role kind custom h =
    let (contracts, contract, found, allowed) = contract-ok role kind custom h in
    elim (resolved-known role contracts found) [
      | inl known ↦ separate_known role kind contract allowed known
      | inr (s, custom_role) ↦ separate_custom role kind s (rw custom_role at allowed)
    ]
