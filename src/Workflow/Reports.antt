-- ===== src/Workflow/Reports.antt =====
-- Tests of accepting and routing reports on the sample run.
use pi_tmux_orchestrator.Prelude.{
  String, ◌≡◌, refl, true, false, none, some, [], ◌∷◌, contains, arith,
}
use pi_tmux_orchestrator.Prelude.Result.{ok, err, broker_uncertain}
use pi_tmux_orchestrator.Prelude.Json.{
  null, text, object, field, end, get, keys_within, keys_include,
}
use pi_tmux_orchestrator.Prelude.Table.{exists, count, select, length, update}
use pi_tmux_orchestrator.Store.Rows.{Kind, WorkflowState, Assignment}
use pi_tmux_orchestrator.Store.Writes.{record_event}
use pi_tmux_orchestrator.Store.Samples.{sample, first_assignment, implementer_row, reviewer_row}
use pi_tmux_orchestrator.Broker.State.{Broker, Client, ReportEvent}
use pi_tmux_orchestrator.Broker.Transport.{
  ◌>>=◌, transact, send, broadcast, reply, catch, broadcast_workflow,
}
use pi_tmux_orchestrator.Protocol.Body.{
  Body, empty_common_report, within_bytes, has_surrogate, report_texts, finding_texts, report_size,
  text_size, chars_size,
}
use pi_tmux_orchestrator.Admission.Ledger.{admission_status, Status}
use pi_tmux_orchestrator.Workflow.Deliver.{Run, draw, run_state_capsule}
use pi_tmux_orchestrator.Workflow.Route.{
  route_report, route_plan, retained_implementation_flow, deliver_run_state, deliver_each,
  deliver_to, unique, is_custom, route_implementation, decide_all, decide_each, assign_each,
}
use pi_tmux_orchestrator.Workflow.Accept.{
  ReportMessage, handle_report, remember_report, route_accepted, handle_valid_report,
  checked_report_usage, checked_identity, check_tx, accept_report, accept_tx, is_storable_report,
  is_own, routing_failed,
}
use pi_tmux_orchestrator.Workflow.Verdict.{NotReady, route_report-NotReady, route_report-approved}
use pi_tmux_orchestrator.Workflow.Once.{ReportedOnce, handle_report-ReportedOnce}
use pi_tmux_orchestrator.Workflow.Replayed.{handle_report-handle_report}
use pi_tmux_orchestrator.Admission.Policy.{
  retained_call_policy, call_policy, limits_of, call_limit, run, assignment,
}
use pi_tmux_orchestrator.Roles.Contracts.{
  contract_of, resolve_role_contract, validate_custom_contracts, bindings, permits,
  validate_assignment_kind,
}
use pi_tmux_orchestrator.Protocol.Report.{
  validate_report, body_of, plain_body, plain_head, plain_checks, plain_findings, plain_strings,
  plain_verdict, checks_of, findings_of,
}
use pi_tmux_orchestrator.Protocol.Texts.{
  bounded_string, has_nul, relative_paths, bounded_strings, item_count, bounded_items, all_relative,
}
use pi_tmux_orchestrator.Protocol.Identity.{is_token, all_hex}
use pi_tmux_orchestrator.Prelude.Text.{len}
use pi_tmux_orchestrator.Attention.Validate.{is_blank}
use pi_tmux_orchestrator.Specialists.Decide.{any}
use pi_tmux_orchestrator.Specialists.Activation.{public_specialist_activations}
use pi_tmux_orchestrator.Specialists.Forced.{
  retained_forced_specialists, validate_forced_specialists, forced_items,
}
use pi_tmux_orchestrator.Workflow.Review.{
  configured, maybe_assign_reviewer, review_tx, is_due, specialists, specialists_ready,
}
use pi_tmux_orchestrator.Workflow.Assign.{assign, if_connected}
use pi_tmux_orchestrator.Workflow.Uncertain.{Ended, accept_report-Ended}

abbrev token : String
token = "aaaaaaaaaaaaaaaaaaaaaaaaaaaaaaaa"

abbrev own : Assignment
own = record first_assignment { id = token }

-- The implementer works on its first assignment; nobody is connected, so that nothing is delivered.
abbrev working : Broker
working = record {
  db = record sample {
    roles = record implementer_row { active_assignment_id = some token } ∷ reviewer_row ∷ [];
    assignments = own ∷ [];
    reports = [];
  };
  clients = [];
  link = [];
  sent = [];
  observed = [];
  pending_run_state = [];
  role_run_state = [];
  drawn = 0;
  recent_reports = [];
  latest_reports = [];
  baselines = [];
  answered = [];
}

abbrev sample_run : Run
sample_run = record {
  roles = "implementer" ∷ "reviewer" ∷ [];
  version = 11;
  custom_contracts = [];
  retained_roles = [];
  token = λ n. "t0";
}

abbrev client : Client
client = record { role = "implementer"; generation = 1 }

abbrev event : ReportEvent
event = record { id = "p1"; role = "implementer"; round = 1 }

abbrev done : ReportMessage
done = record {
  id = "m1";
  report = object (field "kind" (text "implementation") (field "summary" (text "done") end));
  usage = null;
  runtime_identity = none;
  assignment_id = some (text token);
}

abbrev implementation : Body
implementation = empty_common_report Kind.implementation "done"

abbrev approval : Body
approval = record (empty_common_report Kind.review "fine") { verdict = some "approved" }

abbrev status : Status
status = record { limits = (run, 2) ∷ (assignment, 1) ∷ []; admitted_turns = 0; paused = false }

not_custom : is_custom sample_run "reviewer" ≡ false
unfolding contract_of
not_custom = refl

working-status : admission_status working.db ≡ ok status
unfolding admission_status retained_call_policy call_policy limits_of call_limit get keys_within
    keys_include count
working-status = refl

route_report-approved_example :
    ((route_report sample_run "reviewer" 1 approval working).0 ≡ ok tt)
    × ((route_report sample_run "reviewer" 1 approval working).1.db.meta.workflow_state
        ≡ WorkflowState.ready)
    × ((route_report sample_run "reviewer" 1 approval working).1.sent ≡ [])
route_report-approved_example =
    route_report-approved sample_run 1 approval working status not_custom refl working-status

route_report-NotReady_example :
    NotReady (route_report sample_run "implementer" 1 implementation working).1.db
route_report-NotReady_example =
    route_report-NotReady sample_run "implementer" 1 implementation working refl (λ e. cc)

working-ReportedOnce : ReportedOnce working.db
unfolding count
working-ReportedOnce id = ground arith

handle_report-ReportedOnce_example :
    ReportedOnce (handle_report sample_run client done working).1.db
handle_report-ReportedOnce_example =
    handle_report-ReportedOnce sample_run client done working working-ReportedOnce

report_is_accepted : (handle_report sample_run client done working).0 ≡ ok tt
unfolding handle_report handle_valid_report ◌>>=◌ validate_report resolve_role_contract
    validate_custom_contracts bindings body_of within_bytes checked_report_usage checked_identity
    is_token all_hex transact check_tx select exists accept_report accept_tx is_storable_report draw
    remember_report route_accepted catch route_report contract_of route_implementation decide_all
    public_specialist_activations retained_forced_specialists validate_forced_specialists
    forced_items item_count decide_each configured contains deliver_run_state run_state_capsule
    unique deliver_each deliver_to assign_each maybe_assign_reviewer review_tx is_due specialists
    specialists_ready assign if_connected validate_assignment_kind permits send broadcast
    record_event len get keys_within keys_include plain_body plain_head bounded_string is_blank
    has_nul relative_paths bounded_strings bounded_items all_relative plain_checks checks_of
    plain_findings findings_of plain_strings plain_verdict any has_surrogate report_texts
    finding_texts report_size text_size chars_size length update
report_is_accepted = refl

handle_report-handle_report_example :
    handle_report sample_run client done (handle_report sample_run client done working).1
    ≡ reply client "m1" true "duplicate" (handle_report sample_run client done working).1
handle_report-handle_report_example =
    handle_report-handle_report sample_run client done working report_is_accepted

-- A run whose retained flow is not one of the two.
abbrev damaged : Broker
damaged = record working {
  db = record working.db { meta = record working.db.meta { implementation_flow = some "other" } };
}

abbrev plan : Body
plan = empty_common_report Kind.plan "plan"

first_is_own : select (is_own client token) damaged.db.assignments ≡ some own
unfolding select
first_is_own = refl

accept_report-Ended_example :
    Ended client own true damaged.db
      (accept_report sample_run client done plan none own damaged).1.db
      (accept_report sample_run client done plan none own damaged).0
unfolding is_storable_report exists
accept_report-Ended_example =
    accept_report-Ended client own sample_run done plan none damaged first_is_own

-- The routing raises, and the report stays.
routing_raises :
    (accept_report sample_run client done plan none own damaged).0 ≡ err broker_uncertain
unfolding accept_report accept_tx is_storable_report draw remember_report broadcast route_accepted
    catch route_report contract_of route_plan deliver_run_state run_state_capsule
    public_specialist_activations unique deliver_each deliver_to contains transact ◌>>=◌
    retained_implementation_flow exists routing_failed broadcast_workflow record_event
routing_raises = refl
