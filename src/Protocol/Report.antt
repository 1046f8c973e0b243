-- ===== src/Protocol/Report.antt =====
-- `validate_report` and `_validate_plan_report` (protocol.py).
use pi_tmux_orchestrator.Prelude.{
  ℕ, String, Bool, true, false, not, ◌&&◌, ◌||◌, Option, none, some, List, [], ◌∷◌, ◌++◌, leb, ◌==◌,
  String_eq, Option_eq, if◌then◌else◌,
}
use pi_tmux_orchestrator.Prelude.Result.{Result, ok, err, ◌>>=◌, invalid_protocol, forbidden}
use pi_tmux_orchestrator.Prelude.Json.{
  Value, null, int, text, array, object, Fields, Items, nil, cons, get, keys_within, keys_include,
}
use pi_tmux_orchestrator.Prelude.Table.{length}
use pi_tmux_orchestrator.Store.Rows.{Kind, Kind_eq}
use pi_tmux_orchestrator.Roles.Contracts.{
  Contract, implementer, reviewer, specialist, Specialist, specialist_kind, resolve_role_contract,
}
use pi_tmux_orchestrator.Protocol.Texts.{
  bounded_string, bounded_strings, relative_paths, iterate, is_among,
}
use pi_tmux_orchestrator.Protocol.Body.{Check, Finding, Body, empty_common_report, within_bytes}

abbrev pub max_report_summary_chars : ℕ
max_report_summary_chars = 2000

abbrev pub max_report_items : ℕ
max_report_items = 50

abbrev pub max_report_item_chars : ℕ
max_report_item_chars = 500

abbrev pub max_plan_report_items : ℕ
max_plan_report_items = 12

abbrev pub max_plan_report_item_chars : ℕ
max_plan_report_item_chars = 300

abbrev pub max_plan_report_summary_chars : ℕ
max_plan_report_summary_chars = 1000

abbrev pub required : Option Value → Value
required none = null
required (some value) = value

abbrev pub or_empty : Option Value → Value
or_empty none = array nil
or_empty (some value) = value

-- set(value) == set(names)
abbrev pub has_exactly : List String → Fields → Bool
has_exactly names fields = keys_within names fields && keys_include names fields

abbrev pub plan_fields : List String
plan_fields =
    "kind" ∷ "summary" ∷ "relevant_paths" ∷ "relevant_symbols" ∷ "intended_changes"
    ∷ "required_checks" ∷ "risks" ∷ "open_questions" ∷ []

abbrev pub common_fields : List String
common_fields = "changed_paths" ∷ "checks" ∷ "findings" ∷ "limitations" ∷ "verdict" ∷ []

abbrev pub is_empty_list : Option Value → Bool
is_empty_list (some (array nil)) = true
is_empty_list _ = false

abbrev pub is_null : Option Value → Bool
is_null (some null) = true
is_null _ = false

-- The empty common report that the worker bridge adds.
abbrev pub has_empty_common : Fields → Bool
has_empty_common value =
    is_empty_list (get "changed_paths" value)
    && is_empty_list (get "checks" value)
    && is_empty_list (get "findings" value)
    && is_empty_list (get "limitations" value)
    && is_null (get "verdict" value)

-- One of the two sets of fields, and nothing claimed.
unfoldable pub is_plan_shape : Fields → Bool
unfolding get keys_within keys_include
is_plan_shape value =
    has_exactly plan_fields value
    || has_exactly (plan_fields ++ common_fields) value && has_empty_common value

abbrev pub plan_paths : Fields → String → Result (List String)
plan_paths value key =
    relative_paths max_plan_report_items max_plan_report_item_chars (required (get key value))

abbrev pub plan_strings : Fields → String → Result (List String)
plan_strings value key =
    bounded_strings max_plan_report_items max_plan_report_item_chars (required (get key value))

unfoldable pub plan_body : Fields → Result Body
unfolding get bounded_string relative_paths bounded_strings
plan_body value = do
  summary ← bounded_string max_plan_report_summary_chars (required (get "summary" value))
  paths ← plan_paths value "relevant_paths"
  symbols ← plan_strings value "relevant_symbols"
  changes ← plan_strings value "intended_changes"
  checks ← plan_strings value "required_checks"
  risks ← plan_strings value "risks"
  questions ← plan_strings value "open_questions"
  ok (record (empty_common_report Kind.plan summary) {
    risks = risks;
    plan = some (record {
      relevant_paths = paths;
      relevant_symbols = symbols;
      intended_changes = changes;
      required_checks = checks;
      open_questions = questions;
    });
  })

abbrev pub plan_of : Fields → Result Body
plan_of value = if is_plan_shape value then plan_body value else err invalid_protocol

-- `_validate_plan_report`
unfoldable pub validate_plan_report : Fields → Contract → Result Body
unfolding is_plan_shape plan_body
validate_plan_report value implementer = plan_of value
validate_plan_report value _ = err forbidden

abbrev pub among_or_refused : Bool → Result (Unit {0})
among_or_refused true = ok tt
among_or_refused false = err invalid_protocol

abbrev pub text_of : Option Value → String
text_of (some (text s)) = s
text_of _ = ""

abbrev pub check_statuses : List String
check_statuses = "passed" ∷ "failed" ∷ "skipped" ∷ "unknown" ∷ []

unfoldable pub check_of : Value → Result Check
unfolding get keys_within keys_include bounded_string
check_of (object check) =
    if has_exactly ("name" ∷ "status" ∷ []) check
    then (do
      known ← is_among check_statuses (required (get "status" check))
      u ← among_or_refused known
      name ← bounded_string max_report_item_chars (required (get "name" check))
      ok (record { name = name; status = text_of (get "status" check) }))
    else err invalid_protocol
check_of _ = err invalid_protocol

unfoldable pub checks_of : Items → Result (List Check)
unfolding check_of
checks_of nil = ok []
checks_of (cons value rest) = do first ← check_of value; more ← checks_of rest; ok (first ∷ more)

abbrev pub severities : List String
severities = "critical" ∷ "high" ∷ "medium" ∷ "low" ∷ "info" ∷ []

-- `None`, or a bounded text
abbrev pub optional_string : Option Value → Result (Option String)
optional_string none = ok none
optional_string (some null) = ok none
optional_string (some value) = do s ← bounded_string max_report_item_chars value; ok (some s)

-- `None`, or a positive int
abbrev pub optional_line : Option Value → Result (Option ℕ)
optional_line none = ok none
optional_line (some null) = ok none
optional_line (some (int n)) = if leb 1 n then ok (some n) else err invalid_protocol
optional_line _ = err invalid_protocol

abbrev pub finding_fields : List String
finding_fields = "severity" ∷ "path" ∷ "line" ∷ "summary" ∷ "acceptance" ∷ []

unfoldable pub finding_of : Value → Result Finding
unfolding get keys_within keys_include bounded_string
finding_of (object finding) =
    if keys_within finding_fields finding && keys_include ("severity" ∷ "summary" ∷ []) finding
    then (do
      known ← is_among severities (required (get "severity" finding))
      u ← among_or_refused known
      path ← optional_string (get "path" finding)
      line ← optional_line (get "line" finding)
      acceptance ← optional_string (get "acceptance" finding)
      summary ← bounded_string max_report_item_chars (required (get "summary" finding))
      ok (record {
        severity = text_of (get "severity" finding);
        path = path;
        line = line;
        summary = summary;
        acceptance = acceptance;
      }))
    else err invalid_protocol
finding_of _ = err invalid_protocol

unfoldable pub findings_of : Items → Result (List Finding)
unfolding finding_of
findings_of nil = ok []
findings_of (cons value rest) = do
  first ← finding_of value
  more ← findings_of rest
  ok (first ∷ more)

abbrev pub at_most_items {ℓ} : {A : Type ℓ} → List A → Result (List A)
at_most_items xs = if leb (length xs) max_report_items then ok xs else err invalid_protocol

abbrev pub expected_kind : Contract → Kind
expected_kind implementer = Kind.implementation
expected_kind reviewer = Kind.review
expected_kind (specialist s) = specialist_kind s

-- The verdicts of a role; the implementer and the probe give none.
abbrev pub expected_verdicts : Contract → Option (List String)
expected_verdicts reviewer = some ("approved" ∷ "changes_requested" ∷ [])
expected_verdicts (specialist Specialist.playwright) = some ("pass" ∷ "fail" ∷ [])
expected_verdicts (specialist Specialist.django) = some ("advisory_approved" ∷ "issues_found" ∷ [])
expected_verdicts _ = none

abbrev pub chosen : String → Bool → Result (Option String)
chosen verdict true = ok (some verdict)
chosen verdict false = err invalid_protocol

abbrev pub no_verdict : Value → Result (Option String)
no_verdict null = ok none
no_verdict _ = err forbidden

abbrev pub verdict_among : Option (List String) → Value → Result (Option String)
verdict_among none verdict = no_verdict verdict
verdict_among (some verdicts) verdict =
    is_among verdicts verdict >>= chosen (text_of (some verdict))

abbrev pub may_change : Contract → List String → Result (Unit {0})
may_change implementer paths = ok tt
may_change _ [] = ok tt
may_change _ (path ∷ paths) = err forbidden

-- The summary and the changed paths.
unfoldable pub plain_head : Contract → Fields → Result (String × List String)
unfolding get bounded_string relative_paths
plain_head contract value = do
  summary ← bounded_string max_report_summary_chars (required (get "summary" value))
  changed ←
      relative_paths max_report_items max_report_item_chars (or_empty (get "changed_paths" value))
  u ← may_change contract changed
  ok (summary, changed)

-- A loop over the field's items, and then the test of their number.
unfoldable pub plain_checks : Fields → Result (List Check)
unfolding get checks_of
plain_checks value = do
  items ← iterate (or_empty (get "checks" value))
  checks ← checks_of items
  at_most_items checks

unfoldable pub plain_findings : Fields → Result (List Finding)
unfolding get findings_of
plain_findings value = do
  items ← iterate (or_empty (get "findings" value))
  findings ← findings_of items
  at_most_items findings

unfoldable pub plain_strings : Fields → String → Result (List String)
unfolding get bounded_strings
plain_strings value key =
    bounded_strings max_report_items max_report_item_chars (or_empty (get key value))

unfoldable pub plain_verdict : Contract → Fields → Result (Option String)
unfolding get
plain_verdict contract value =
    verdict_among (expected_verdicts contract) (required (get "verdict" value))

-- The body of a report that is no plan.
unfoldable pub plain_body : Contract → Fields → Result Body
unfolding plain_head plain_checks plain_findings plain_strings plain_verdict
plain_body contract value = do
  (summary, changed) ← plain_head contract value
  checks ← plain_checks value
  findings ← plain_findings value
  risks ← plain_strings value "risks"
  limitations ← plain_strings value "limitations"
  verdict ← plain_verdict contract value
  ok (record (empty_common_report (expected_kind contract) summary) {
    changed_paths = changed;
    checks = checks;
    findings = findings;
    risks = risks;
    limitations = limitations;
    verdict = verdict;
  })

abbrev pub report_fields : List String
report_fields =
    "kind" ∷ "summary" ∷ "changed_paths" ∷ "checks" ∷ "findings" ∷ "risks" ∷ "limitations"
    ∷ "verdict" ∷ []

abbrev pub kind_name : Kind → String
kind_name Kind.plan = "plan"
kind_name Kind.implementation = "implementation"
kind_name Kind.review = "review"
kind_name Kind.probe = "probe"
kind_name Kind.playwright = "playwright"
kind_name Kind.django = "django"

abbrev pub plain_report : Contract → String → Fields → Result Body
plain_report contract kind value =
    if not (keys_within report_fields value)
    then err invalid_protocol
    else if not (kind == kind_name (expected_kind contract))
    then err forbidden
    else plain_body contract value

abbrev pub by_kind : Contract → Fields → String → Result Body
by_kind contract value kind =
    if kind == "plan" then validate_plan_report value contract else plain_report contract kind value

abbrev pub kind_of : Option Value → Result String
kind_of (some (text kind)) = ok kind
kind_of _ = err invalid_protocol

unfoldable pub body_of : Contract → Value → Result Body
unfolding get keys_within keys_include validate_plan_report plain_body
body_of contract (object value) =
    if keys_include ("kind" ∷ "summary" ∷ []) value
    then kind_of (get "kind" value) >>= by_kind contract value
    else err invalid_protocol
body_of contract _ = err invalid_protocol

unfoldable pub validate_report : Value → String → Value → Result Body
validate_report value role custom_contracts = do
  contract ← resolve_role_contract (text role) custom_contracts
  body ← body_of contract value
  within_bytes body
