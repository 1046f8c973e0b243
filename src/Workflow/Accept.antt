-- ===== src/Workflow/Accept.antt =====
-- `handle_report` and what it calls (broker_workflow.py).
use pi_tmux_orchestrator.Prelude.{
  ℕ, zero, suc, ◌-◌, String, Bool, true, false, not, ◌&&◌, ◌||◌, Option, none, some, List, [], ◌∷◌,
  leb, ltb, ◌==◌, String_eq, Option_eq, if◌then◌else◌,
}
use pi_tmux_orchestrator.Prelude.Result
use pi_tmux_orchestrator.Prelude.Result.{
  Result, ok, err, ErrorCode, conflict, forbidden, broker_uncertain, invalid_protocol,
  connection_lost, internal_error,
}
use pi_tmux_orchestrator.Prelude.Json.{Value, null, object, Fields, get}
use pi_tmux_orchestrator.Prelude.Table.{select, exists, insert, length}
use pi_tmux_orchestrator.Store.Rows.{
  Db, RoleRow, RoleState, Assignment, AssignmentState, Kind, Kind_eq, Report, ReportAttempt, Usage,
  WorkflowState,
}
use pi_tmux_orchestrator.Store.Writes
use pi_tmux_orchestrator.Store.Writes.{Tx, set_workflow_state}
use pi_tmux_orchestrator.Broker.State.{Client, ReportEvent, report}
use pi_tmux_orchestrator.Broker.Transport.{
  Exec, ◌>>=◌, ◌>>◌, raise, when, transact, catch, reply, broadcast, broadcast_workflow,
}
use pi_tmux_orchestrator.Attention.Rows.{is_open, set_assignment, set_role, record_report_rejection}
use pi_tmux_orchestrator.Attention.Handlers.{lift}
use pi_tmux_orchestrator.Roles.Contracts.{contracts_value}
use pi_tmux_orchestrator.Protocol.Body.{Body}
use pi_tmux_orchestrator.Protocol.Report.{validate_report, has_exactly}
use pi_tmux_orchestrator.Protocol.Identity.{validate_runtime_identity, token_of}
use pi_tmux_orchestrator.Worker.Usage.{
  valid_usage, column, with_usage, usage_row, is_storable, is_storable_usage,
}
use pi_tmux_orchestrator.Workflow.Deliver.{Run, draw}
use pi_tmux_orchestrator.Workflow.Assign.{event_of}
use pi_tmux_orchestrator.Workflow.Route.{route_report}

abbrev pub max_observer_reports : ℕ
max_observer_reports = 100

-- A `report` frame; what is not there is `none`, and its usage `null`.
pub record ReportMessage : Type 0 where
  pub id : String
  pub report : Value
  pub usage : Value
  pub runtime_identity : Option Value
  pub assignment_id : Option Value

-- The two usages of a report.
pub record ReportUsage : Type 0 where
  pub cumulative : Fields
  pub assignment : Fields

abbrev pub both_valid : Value → Value → Result Bool
both_valid cumulative assignment =
    Result.◌>>=◌ (valid_usage true false cumulative)
      λ valid. if valid then valid_usage true true assignment else ok false

abbrev pub usages_valid : Option Value → Option Value → Result Bool
usages_valid (some cumulative) (some assignment) = both_valid cumulative assignment
usages_valid _ _ = ok false

-- `_valid_report_usage`
unfoldable pub valid_report_usage : Value → Result Bool
unfolding get
valid_report_usage (object usage) =
    if has_exactly ("cumulative" ∷ "assignment" ∷ []) usage
    then usages_valid (get "cumulative" usage) (get "assignment" usage)
    else ok false
valid_report_usage _ = ok false

abbrev pub usage_fields : Option Value → Option Value → Option ReportUsage
usage_fields (some (object cumulative)) (some (object assignment)) =
    some (record { cumulative = cumulative; assignment = assignment })
usage_fields _ _ = none

abbrev pub usages_of : Value → Option ReportUsage
usages_of (object usage) = usage_fields (get "cumulative" usage) (get "assignment" usage)
usages_of _ = none

-- if report_usage is not None and not self._valid_report_usage(report_usage): invalid_protocol
unfoldable pub checked_report_usage : Value → Result (Option ReportUsage)
checked_report_usage null = ok none
checked_report_usage value =
    Result.◌>>=◌ (valid_report_usage value)
      λ valid. if valid then ok (usages_of value) else err invalid_protocol

unfoldable pub checked_identity : Option Value → Result (Unit {0})
checked_identity none = ok tt
checked_identity (some value) = Result.◌>>=◌ (validate_runtime_identity value) λ identity. ok tt

-- SELECT … FROM assignments WHERE id=? AND role=?
abbrev pub is_own : Client → String → Assignment → Bool
is_own client id a = a.id == id && a.role == client.role

-- SELECT id FROM reports WHERE assignment_id=?
abbrev pub is_about : String → Report → Bool
is_about id x = x.assignment_id == id

abbrev pub works_on : String → Option RoleRow → Bool
works_on id none = false
works_on id (some r) = r.active_assignment_id == some id

abbrev pub is_acceptable : Client → Assignment → Db → Bool
is_acceptable client a db =
    is_open a.state && works_on a.id (select (λ (r : RoleRow). r.role == client.role) db.roles)

-- The assignment that the report completes; `none` if a report about it is there already.
abbrev pub check_found : Client → Kind → Option Assignment → Db → Result (Option Assignment)
check_found client kind none db = err conflict
check_found client kind (some a) db =
    if not (a.kind == kind)
    then err forbidden
    else if exists (is_about a.id) db.reports
    then ok none
    else if is_acceptable client a db
    then ok (some a)
    else err conflict

-- The reads of the transaction of `_handle_report`; its writes are `accept_tx`.
unfoldable pub check_tx : Client → String → Kind → Tx (Option Assignment)
check_tx client id kind db =
    Writes.lift (check_found client kind (select (is_own client id) db.assignments) db) db

abbrev pub no_usage : Usage
no_usage = record {
  provider_calls = null;
  input_tokens = null;
  output_tokens = null;
  cache_read_tokens = null;
  cache_write_tokens = null;
  reasoning_tokens = null;
  cost_total = null;
  context_tokens = null;
  context_window = null;
  context_percent = null;
}

-- The numbers that the INSERT and the UPDATE bind.
unfoldable pub is_storable_report : Option ReportUsage → Bool
unfolding get with_usage
is_storable_report none = true
is_storable_report (some usage) =
    is_storable_usage (with_usage usage.assignment no_usage)
    && is_storable (column (get "peakContextTokens" usage.assignment))
    && is_storable_usage (with_usage usage.cumulative no_usage)

abbrev pub cumulative_of : Option ReportUsage → Option Fields
cumulative_of none = none
cumulative_of (some usage) = some usage.cumulative

abbrev pub report_row : Client → Assignment → Body → String → Report
report_row client a body id = record {
  id = id;
  assignment_id = a.id;
  role = client.role;
  round = a.round;
  kind = body.kind;
  verdict = body.verdict;
}

abbrev pub completed_row : Assignment → Assignment
completed_row a = record a {
  state = AssignmentState.completed;
  report_attempt = ReportAttempt.accepted;
}

abbrev pub finished_role : Option ReportUsage → RoleRow → RoleRow
finished_role usage r = record (usage_row (cumulative_of usage) r) {
  active_assignment_id = none;
  state = RoleState.idle;
  activity = none;
}

abbrev pub status_of : Option String → String
status_of none = "completed"
status_of (some verdict) = verdict

abbrev pub accepted : Client → Assignment → Body → Option ReportUsage → String → Db → Db
accepted client a body usage id db =
    event_of "report_accepted" client.role a.round (some a.id) none (status_of body.verdict) (
      set_role client.role (finished_role usage) (
        set_assignment a.id completed_row
          (record db { reports = insert (report_row client a body id) db.reports })))

-- The id of a report is a key.
unfoldable pub accept_tx : Client → Assignment → Body → Option ReportUsage → String → Tx (Unit {0})
accept_tx client a body usage id db =
    if not (is_storable_report usage) || exists (λ (x : Report). x.id == id) db.reports
    then err internal_error
    else ok (tt, accepted client a body usage id db)

-- del rows[:n]
unfoldable pub drop : {A : Type 0} → ℕ → List A → List A
drop zero rows = rows
drop (suc n) [] = []
drop (suc n) (x ∷ rest) = drop n rest

-- The latest report of a role is replaced by one of the same or a later round.
unfoldable pub with_latest : String → ℕ → List (String × ℕ) → List (String × ℕ)
with_latest role round [] = (role, round) ∷ []
with_latest role round ((name, n) ∷ rest) =
    let others = with_latest role round rest in
    if name == role then (name, if leb n round then round else n) ∷ rest else (name, n) ∷ others

abbrev pub trimmed : List ReportEvent → List ReportEvent
trimmed rows =
    if ltb max_observer_reports (length rows)
    then drop (length rows - max_observer_reports) rows
    else rows

-- `_remember_report`
unfoldable pub remember_report : ReportEvent → Exec (Unit {0})
unfolding drop with_latest
remember_report event b = (
  Result.ok tt,
  record b {
    latest_reports = with_latest event.role event.round b.latest_reports;
    recent_reports = trimmed (insert event b.recent_reports);
  },
)

abbrev pub routing_uncertain : Client → Assignment → Db → Db
routing_uncertain client a db =
    event_of "workflow_uncertain" client.role a.round (some a.id) none "uncertain"
      (set_workflow_state WorkflowState.uncertain db)

-- `except Exception` around the routing.
unfoldable pub routing_failed : Client → Assignment → Exec (Unit {0})
routing_failed client a = do
  transact (Writes.modify (routing_uncertain client a))
  broadcast_workflow WorkflowState.uncertain a.round
  raise broker_uncertain

-- Whether an exception is an `OrchestrationError`.
abbrev pub is_orchestration : ErrorCode → Bool
is_orchestration connection_lost = false
is_orchestration internal_error = false
is_orchestration _ = true

module _ (run : Run) where
  unfoldable pub route_accepted : Client → Assignment → Body → Exec (Unit {0})
  route_accepted client a body =
      catch (route_report run client.role a.round body) (routing_failed client a)

  unfoldable pub accept_report :
      Client → ReportMessage → Body → Option ReportUsage → Assignment → Exec (Unit {0})
  accept_report client m body usage a = do
    report_id ← draw run
    transact (accept_tx client a body usage report_id)
    remember_report (record { id = report_id; role = client.role; round = a.round })
    broadcast (report client.role a.id a.round)
    route_accepted client a body
    reply client m.id true "accepted"

  abbrev pub finish_report :
      Client → ReportMessage → Body → Option ReportUsage → Option Assignment → Exec (Unit {0})
  finish_report client m body usage none = reply client m.id true "duplicate"
  finish_report client m body usage (some a) = accept_report client m body usage a

  -- `_handle_report`
  unfoldable pub handle_valid_report : Client → ReportMessage → Exec (Unit {0})
  handle_valid_report client m = do
    body ← lift (validate_report m.report client.role (contracts_value run.custom_contracts))
    usage ← lift (checked_report_usage m.usage)
    lift (checked_identity m.runtime_identity)
    id ← lift (token_of m.assignment_id)
    found ← transact (check_tx client id body.kind)
    finish_report client m body usage found

  -- message.get("assignment_id"), as far as it can be the id of a row
  abbrev pub named_assignment : Option Value → Option String
  named_assignment (some (Value.text id)) = some id
  named_assignment _ = none

  abbrev pub record_rejection : Client → ReportMessage → ErrorCode → Exec (Unit {0})
  record_rejection client m code =
      when (is_orchestration code) (
        transact
          (Writes.modify (record_report_rejection (named_assignment m.assignment_id) client)))

  abbrev pub rejected : Client → ReportMessage → Result (Unit {0}) → Exec (Unit {0})
  rejected client m (ok u) b = (ok u, b)
  rejected client m (err code) b = (record_rejection client m code >> raise code) b

  -- `except OrchestrationError`: the rejection is recorded, and the exception raised again.
  unfoldable pub handle_report : Client → ReportMessage → Exec (Unit {0})
  handle_report client m b =
      let (result, b') = handle_valid_report client m b in rejected client m result b'
