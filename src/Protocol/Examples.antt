-- ===== src/Protocol/Examples.antt =====
-- Tests of the report validation.
use pi_tmux_orchestrator.Prelude.{◌≤◌, ◌≡◌, refl, none, some, [], contains, ◌⊎◌}
use pi_tmux_orchestrator.Prelude.Result.{ok, err, forbidden, internal_error}
use pi_tmux_orchestrator.Prelude.Json.{
  Value, null, text, array, object, field, end, nil, cons, get, keys_within, keys_include, Fields,
}
use pi_tmux_orchestrator.Prelude.Text.{len}
use pi_tmux_orchestrator.Attention.Validate.{is_blank}
use pi_tmux_orchestrator.Store.Rows.{Kind}
use pi_tmux_orchestrator.Specialists.Paths.{codes, split_slash, is_text}
use pi_tmux_orchestrator.Specialists.Decide.{any}
use pi_tmux_orchestrator.Roles.Contracts.{
  Contract, resolve_role_contract, validate_custom_contracts,
}
use pi_tmux_orchestrator.Protocol.Texts.{
  has_nul, bounded_string, item_count, bounded_items, bounded_strings, is_printable, is_relative,
  all_relative, relative_paths,
}
use pi_tmux_orchestrator.Protocol.Body.{
  Body, within_bytes, report_size, max_report_bytes, has_surrogate, report_texts, finding_texts,
  text_size, chars_size,
}
use pi_tmux_orchestrator.Protocol.Report.{
  validate_report, body_of, plain_body, plain_head, plain_checks, plain_findings, plain_strings,
  plain_verdict, checks_of, findings_of,
}
use pi_tmux_orchestrator.Protocol.Claims.{Claims, IsPlan, validate_report-Claims}

abbrev pub approval : Body
approval = record {
  kind = Kind.review;
  summary = "fine";
  changed_paths = [];
  checks = [];
  findings = [];
  risks = [];
  limitations = [];
  verdict = some "approved";
  plan = none;
}

abbrev review : Fields → Value
review rest = object (field "kind" (text "review") (field "summary" (text "fine") rest))

accepted :
    validate_report (review (field "verdict" (text "approved") end)) "reviewer" null ≡ ok approval
unfolding validate_report resolve_role_contract validate_custom_contracts body_of get keys_within
    keys_include plain_body plain_head bounded_string is_blank len has_nul relative_paths
    bounded_strings item_count bounded_items all_relative plain_checks checks_of plain_findings
    findings_of plain_strings plain_verdict contains within_bytes any has_surrogate report_texts
    finding_texts report_size text_size chars_size
accepted = refl

validate_report-Claims_example :
    (contract : Contract) × (resolve_role_contract (text "reviewer") null ≡ ok contract)
    × (report_size approval ≤ max_report_bytes)
    × (IsPlan contract approval ⊎ Claims contract approval)
validate_report-Claims_example =
    validate_report-Claims (review (field "verdict" (text "approved") end)) "reviewer" null accepted

-- A reviewer that names a changed path.
changes_refused :
    validate_report
      (review (field "changed_paths" (array (cons (text "src/a.py") nil)) end))
      "reviewer"
      null
    ≡ err forbidden
unfolding validate_report resolve_role_contract validate_custom_contracts body_of get keys_within
    keys_include plain_body plain_head bounded_string is_blank len has_nul relative_paths
    bounded_strings item_count bounded_items all_relative is_relative codes split_slash is_text any
    is_printable contains
changes_refused = refl

-- `null` cannot be iterated: the exception is not the protocol's.
null_checks :
    validate_report (review (field "checks" null end)) "reviewer" null ≡ err internal_error
unfolding validate_report resolve_role_contract validate_custom_contracts body_of get keys_within
    keys_include plain_body plain_head bounded_string is_blank len has_nul relative_paths
    bounded_strings item_count bounded_items all_relative plain_checks contains
null_checks = refl

report_is_measured : report_size approval ≡ 128
unfolding report_size text_size chars_size
report_is_measured = refl
