-- ===== src/Protocol/Claims.antt =====
-- What a validated report may claim, by the contract of its role (protocol.py).
use pi_tmux_orchestrator.Prelude.{
  ℕ, ◌≤◌, String, ◌≡◌, refl, true, Option, none, some, List, [], ◌∷◌, arith, inl, inr, ◌⊎◌,
  Bool-cases, contains, ◌==◌, String_eq,
}
use pi_tmux_orchestrator.Prelude.Result.{ok, Result-cases, continue-eq-ok}
use pi_tmux_orchestrator.Prelude.Json.{Value, text, object, Fields, get, keys_include}
use pi_tmux_orchestrator.Prelude.Table.{length}
use pi_tmux_orchestrator.Store.Rows.{Kind}
use pi_tmux_orchestrator.Roles.Contracts.{Contract, implementer, resolve_role_contract}
use pi_tmux_orchestrator.Protocol.Texts.{
  bounded_string, iterate, relative_paths, all_relative, bounded_strings,
}
use pi_tmux_orchestrator.Protocol.Body.{
  Body, Check, Finding, empty_common_report, within_bytes, report_size, max_report_bytes,
}
use pi_tmux_orchestrator.Protocol.Report.{
  required, or_empty, plan_paths, plan_strings, kind_of, is_plan_shape, max_report_summary_chars,
  max_report_item_chars, max_plan_report_summary_chars, plain_body, plain_head, plain_checks,
  plain_findings, plain_strings, plain_verdict, checks_of, findings_of, plan_body,
  validate_plan_report, by_kind, body_of, validate_report, expected_kind, expected_verdicts,
  may_change, verdict_among, max_report_items, at_most_items,
}

-- Only the implementer names changed paths.
abbrev pub MayChange : Contract → List String → Type 0
MayChange implementer paths = Unit
MayChange _ paths = paths ≡ []

-- The verdict is one of the role's, and only a role that judges has one.
abbrev pub VerdictIn : Option (List String) → Option String → Type 0
VerdictIn none verdict = verdict ≡ none
VerdictIn (some verdicts) verdict = (v : String) × (verdict ≡ some v) × (contains verdicts v ≡ true)

-- What the code relies on when it stores and routes a report that is no plan.
pub record Claims (contract : Contract) (r : Body) : Type 0 where
  pub kind : r.kind ≡ expected_kind contract
  pub changes : MayChange contract r.changed_paths
  pub relative : all_relative r.changed_paths ≡ true
  pub few_checks : length r.checks ≤ max_report_items
  pub few_findings : length r.findings ≤ max_report_items
  pub verdict : VerdictIn (expected_verdicts contract) r.verdict

may_change-MayChange :
    (contract : Contract) (paths : List String) {u : Unit {0}}
    → may_change contract paths ≡ ok u
    → MayChange contract paths
may_change-MayChange implementer paths h = tt
may_change-MayChange contract [] h = ground arith
may_change-MayChange contract (path ∷ paths) h = ground arith

relative_paths-all_relative :
    (n k : ℕ) (value : Value) {paths : List String}
    → relative_paths n k value ≡ ok paths
    → all_relative paths ≡ true
unfolding relative_paths
relative_paths-all_relative n k value {paths} h = elim (Result-cases (bounded_strings n k value)) [
  | inr (c, e) ↦ absurd (ground (arith, e))
  | inl (found, e) ↦ ground (arith, e)
]

at_most_items-le :
    {A : Type 0} (xs : List A) {ys : List A}
    → at_most_items xs ≡ ok ys
    → length ys ≤ max_report_items
at_most_items-le xs {ys} h = ground arith

verdict_among-VerdictIn :
    (verdicts : Option (List String)) (value : Value) {verdict : Option String}
    → verdict_among verdicts value ≡ ok verdict
    → VerdictIn verdicts verdict
verdict_among-VerdictIn none value {verdict} h = ground arith
verdict_among-VerdictIn (some verdicts) (text v) {verdict} h = (v, ground arith, ground arith)
verdict_among-VerdictIn (some verdicts) value h = absurd (ground arith)

plain_head-eq :
    (contract : Contract) (value : Fields) {summary : String} {changed : List String}
    → plain_head contract value ≡ ok (summary, changed)
    → MayChange contract changed × (all_relative changed ≡ true)
unfolding plain_head
plain_head-eq contract value {summary} {changed} h =
    let (s, e0, h0) =
      continue-eq-ok (bounded_string max_report_summary_chars (required (get "summary" value))) _
        h in
    let (paths, e1, h1) =
      continue-eq-ok
        (relative_paths max_report_items max_report_item_chars
          (or_empty (get "changed_paths" value)))
        _ h0 in
    let (u, e2, h2) = continue-eq-ok (may_change contract paths) _ h1 in
    let same : paths ≡ changed = ground arith in
    rw (← same) (
      may_change-MayChange contract paths e2,
      relative_paths-all_relative max_report_items max_report_item_chars
          (or_empty (get "changed_paths" value)) e1,
    )

plain_checks-le :
    (value : Fields) {checks : List Check}
    → plain_checks value ≡ ok checks
    → length checks ≤ max_report_items
unfolding plain_checks
plain_checks-le value h =
    let (items, e0, h0) = continue-eq-ok (iterate (or_empty (get "checks" value))) _ h in
    let (all_checks, e1, h1) = continue-eq-ok (checks_of items) _ h0 in
    at_most_items-le all_checks h1

plain_findings-le :
    (value : Fields) {findings : List Finding}
    → plain_findings value ≡ ok findings
    → length findings ≤ max_report_items
unfolding plain_findings
plain_findings-le value h =
    let (items, e0, h0) = continue-eq-ok (iterate (or_empty (get "findings" value))) _ h in
    let (all_findings, e1, h1) = continue-eq-ok (findings_of items) _ h0 in
    at_most_items-le all_findings h1

plain_verdict-VerdictIn :
    (contract : Contract) (value : Fields) {verdict : Option String}
    → plain_verdict contract value ≡ ok verdict
    → VerdictIn (expected_verdicts contract) verdict
unfolding plain_verdict
plain_verdict-VerdictIn contract value h = verdict_among-VerdictIn (expected_verdicts contract) _ h

plain_body-Claims :
    (contract : Contract) (value : Fields) {r : Body}
    → plain_body contract value ≡ ok r
    → Claims contract r
unfolding plain_body
plain_body-Claims contract value {r} h =
    let ((summary, changed), e0, h0) = continue-eq-ok (plain_head contract value) _ h in
    let (checks, e1, h1) = continue-eq-ok (plain_checks value) _ h0 in
    let (findings, e2, h2) = continue-eq-ok (plain_findings value) _ h1 in
    let (risks, e3, h3) = continue-eq-ok (plain_strings value "risks") _ h2 in
    let (limitations, e4, h4) = continue-eq-ok (plain_strings value "limitations") _ h3 in
    let (verdict, e5, h5) = continue-eq-ok (plain_verdict contract value) _ h4 in
    let made : r ≡ record (empty_common_report (expected_kind contract) summary) {
      changed_paths = changed;
      checks = checks;
      findings = findings;
      risks = risks;
      limitations = limitations;
      verdict = verdict;
    } =
      ground arith in
    let paths = plain_head-eq contract value e0 in
    rw made (record {
      kind = refl;
      changes = paths.0;
      relative = paths.1;
      few_checks = plain_checks-le value e1;
      few_findings = plain_findings-le value e2;
      verdict = plain_verdict-VerdictIn contract value e5;
    })

-- A plan is the implementer's, and claims nothing.
pub record IsPlan (contract : Contract) (r : Body) : Type 0 where
  pub contract_is : contract ≡ implementer
  pub kind : r.kind ≡ Kind.plan
  pub changes : r.changed_paths ≡ []
  pub verdict : r.verdict ≡ none

plan_body-eq : (value : Fields) {r : Body} → plan_body value ≡ ok r → IsPlan implementer r
unfolding plan_body
plan_body-eq value {r} h =
    let (summary, e0, h0) =
      continue-eq-ok (bounded_string max_plan_report_summary_chars (required (get "summary" value)))
        _ h in
    let (paths, e1, h1) = continue-eq-ok (plan_paths value "relevant_paths") _ h0 in
    let (symbols, e2, h2) = continue-eq-ok (plan_strings value "relevant_symbols") _ h1 in
    let (changes, e3, h3) = continue-eq-ok (plan_strings value "intended_changes") _ h2 in
    let (checks, e4, h4) = continue-eq-ok (plan_strings value "required_checks") _ h3 in
    let (risks, e5, h5) = continue-eq-ok (plan_strings value "risks") _ h4 in
    let (questions, e6, h6) = continue-eq-ok (plan_strings value "open_questions") _ h5 in
    record {
      contract_is = refl;
      kind = ground arith;
      changes = ground arith;
      verdict = ground arith;
    }

validate_plan_report-IsPlan :
    (value : Fields) (contract : Contract) {r : Body}
    → validate_plan_report value contract ≡ ok r
    → IsPlan contract r
unfolding validate_plan_report
validate_plan_report-IsPlan value implementer {r} h = elim (Bool-cases (is_plan_shape value)) [
  | inl shape ↦ plan_body-eq value {r = r} (rw shape at h)
  | inr other ↦ absurd (ground (arith, other))
]
validate_plan_report-IsPlan value contract h = absurd (ground arith)

by_kind-eq :
    (contract : Contract) (value : Fields) (kind : String) {r : Body}
    → by_kind contract value kind ≡ ok r
    → IsPlan contract r ⊎ Claims contract r
by_kind-eq contract value kind {r} h = elim (Bool-cases (kind == "plan")) [
  | inl plan ↦ inl (validate_plan_report-IsPlan value contract {r = r} (ground (arith, plan)))
  | inr other ↦ inr (plain_body-Claims contract value {r = r} (ground (arith, other)))
]

body_of-eq :
    (contract : Contract) (value : Value) {r : Body}
    → body_of contract value ≡ ok r
    → IsPlan contract r ⊎ Claims contract r
unfolding body_of
body_of-eq contract (object value) {r} h =
    elim (Bool-cases (keys_include ("kind" ∷ "summary" ∷ []) value)) [
      | inr missing ↦ absurd (ground (arith, missing))
      | inl there ↦
          let (kind, e, k) = continue-eq-ok (kind_of (get "kind" value)) _ (rw there at h) in
          by_kind-eq contract value kind k
    ]
body_of-eq contract value h = absurd (ground arith)

within_bytes-eq :
    (body : Body) {r : Body}
    → within_bytes body ≡ ok r
    → (r ≡ body) × (report_size r ≤ max_report_bytes)
unfolding within_bytes
within_bytes-eq body {r} h = (ground arith, ground arith)

-- A report that is accepted fits the protocol's limit, and is one of two things for the contract of its
-- role. A plan is the implementer's, and names no changed path and no verdict. Any other has the kind of
-- the contract, at most 50 checks and 50 findings, relative changed paths only and none of them unless
-- it is the implementer's, and a verdict that is one of the contract's if it judges, and none if not.
pub validate_report-Claims :
    (value : Value) (role : String) (custom : Value) {r : Body}
    → validate_report value role custom ≡ ok r
    → (contract : Contract) × (resolve_role_contract (text role) custom ≡ ok contract)
      × (report_size r ≤ max_report_bytes)
      × (IsPlan contract r ⊎ Claims contract r)
unfolding validate_report
validate_report-Claims value role custom {r} h =
    let (contract, e, h0) = continue-eq-ok (resolve_role_contract (text role) custom) _ h in
    let (body, k, h1) = continue-eq-ok (body_of contract value) _ h0 in
    let (same, small) = within_bytes-eq body {r = r} h1 in
    (contract, e, small, rw same (body_of-eq contract value k))
