-- ===== src/Roles/Examples.antt =====
-- Tests of the role identities and contracts.
use pi_tmux_orchestrator.Prelude.{◌≡◌, refl, true, false, [], ◌∷◌, contains}
use pi_tmux_orchestrator.Prelude.Result.{ok}
use pi_tmux_orchestrator.Prelude.Json.{Value, text, object, field, end}
use pi_tmux_orchestrator.Prelude.Text.{len}
use pi_tmux_orchestrator.Store.Rows.{Kind}
use pi_tmux_orchestrator.Roles.Identity.{
  valid_custom_role_id, is_custom_name, strip_prefix, is_name, is_dashed,
}
use pi_tmux_orchestrator.Roles.Contracts.{
  probe, bindings, validate_custom_contracts, resolve_role_contract, contract_of, permits,
  validate_assignment_kind,
}
use pi_tmux_orchestrator.Roles.Separation.{Separated, validate_assignment_kind-Separated}

abbrev seo : Value
seo = object (field "custom-seo" (text "probe") end)

seo_is_custom : valid_custom_role_id (text "custom-seo-2") ≡ true
unfolding valid_custom_role_id len strip_prefix is_custom_name is_name is_dashed contains
seo_is_custom = refl

double_dash : valid_custom_role_id (text "custom-seo--2") ≡ false
unfolding valid_custom_role_id len strip_prefix is_custom_name is_name is_dashed contains
double_dash = refl

reserved : valid_custom_role_id (text "custom-reviewer") ≡ false
unfolding valid_custom_role_id len strip_prefix is_custom_name is_name is_dashed contains
reserved = refl

seo_contracts : validate_custom_contracts seo ≡ ok (("custom-seo", probe) ∷ [])
unfolding validate_custom_contracts bindings valid_custom_role_id len strip_prefix is_custom_name
    is_name is_dashed contains
seo_contracts = refl

seo_probes : validate_assignment_kind "custom-seo" Kind.probe seo ≡ ok tt
unfolding validate_assignment_kind resolve_role_contract permits contract_of
seo_probes = rw seo_contracts refl

implements : validate_assignment_kind "implementer" Kind.implementation seo ≡ ok tt
unfolding validate_assignment_kind resolve_role_contract permits
implements = rw seo_contracts refl

validate_assignment_kind-Separated_example : Separated "implementer" Kind.implementation
validate_assignment_kind-Separated_example =
    validate_assignment_kind-Separated "implementer" Kind.implementation seo implements
