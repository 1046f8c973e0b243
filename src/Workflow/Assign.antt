-- ===== src/Workflow/Assign.antt =====
-- `assign` (broker.py).
use pi_tmux_orchestrator.Prelude.{
  ℕ, String, Bool, true, false, not, ◌&&◌, ◌||◌, Option, none, some, ◌==◌, String_eq, if◌then◌else◌,
  ltb, is_some,
}
use pi_tmux_orchestrator.Prelude.Result.{ok, err, internal_error}
use pi_tmux_orchestrator.Prelude.Table.{insert, exists}
use pi_tmux_orchestrator.Store.Rows.{
  Db, RoleRow, RoleState, Assignment, AssignmentState, Kind, Kind_eq, WorkflowState, ReminderState,
  ReportAttempt,
}
use pi_tmux_orchestrator.Store.Writes
use pi_tmux_orchestrator.Store.Writes.{Tx, record_event, set_workflow_state}
use pi_tmux_orchestrator.Broker.State.{assignment}
use pi_tmux_orchestrator.Broker.Transport.{
  Exec, ◌>>=◌, ◌>>◌, when, transact, send, broadcast_workflow,
}
use pi_tmux_orchestrator.Attention.Rows.{set_role}
use pi_tmux_orchestrator.Attention.Handlers.{lift}
use pi_tmux_orchestrator.Roles.Contracts.{contracts_value, validate_assignment_kind}
use pi_tmux_orchestrator.Continuation.Policy.{repair_limit_reached}
use pi_tmux_orchestrator.Workflow.Deliver.{Run, draw, is_connected, flush_pending_run_state}

-- The row that is inserted, with the schema's defaults.
abbrev pub new_assignment : String → Kind → ℕ → String → String → Assignment
new_assignment role kind round_number id delivery_id = record {
  id = id;
  role = role;
  round = round_number;
  kind = kind;
  state = AssignmentState.delivering;
  delivery_id = delivery_id;
  boundary_effective = false;
  settlement_count = 0;
  last_settlement_id = none;
  reminder_state = ReminderState.unreserved;
  report_attempt = ReportAttempt.unattempted;
  attention_reason = none;
  last_phase = none;
  resume_id = none;
  resume_authorized = false;
}

abbrev pub event_of : String → String → ℕ → Option String → Option String → String → Db → Db
event_of event role round_number id delivery_id status db =
    record_event event
      (record {
        role = some role;
        round_number = some round_number;
        assignment_id = id;
        delivery_id = delivery_id;
        status = status;
      })
      db

abbrev pub pause_repair : String → ℕ → Db → Db
pause_repair role round_number db =
    let attention = set_workflow_state WorkflowState.needs_attention db in
    event_of "continuation_paused" role round_number none none "repair_round_limit"
      (record attention {
        meta = record attention.meta { pending_repair_round = some round_number };
      })

abbrev pub working : String → RoleRow → RoleRow
working id r = record r {
  active_assignment_id = some id;
  state = RoleState.active;
  activity = none;
}

-- A repair round that is admitted no longer waits; if one waited, the workflow runs on.
abbrev pub clear_pending : String → Kind → ℕ → Db → Db
clear_pending role kind round_number db =
    if role == "implementer"
      && kind == Kind.implementation
      && ltb 1 round_number
      && is_some db.meta.pending_repair_round
    then set_workflow_state WorkflowState.active
        (record db { meta = record db.meta { pending_repair_round = none } })
    else db

abbrev pub add_assignment : String → Kind → ℕ → String → String → Db → Db
add_assignment role kind round_number id delivery_id db =
    event_of "assignment_created" role round_number (some id) (some delivery_id) "delivering" (
      clear_pending role kind round_number (
        set_role role (working id) (record db {
          assignments =
              insert (new_assignment role kind round_number id delivery_id) db.assignments;
        })))

-- The id and the delivery id of a row are unique, and its role is one of the run's.
abbrev pub is_refused : String → String → String → Db → Bool
is_refused role id delivery_id db =
    exists (λ (a : Assignment). a.id == id || a.delivery_id == delivery_id) db.assignments
    || not (exists (λ (r : RoleRow). r.role == role) db.roles)

abbrev pub admit : String → Kind → ℕ → String → String → Bool → Tx Bool
admit role kind round_number id delivery_id true db = ok (true, pause_repair role round_number db)
admit role kind round_number id delivery_id false db =
    if is_refused role id delivery_id db
    then err internal_error
    else ok (false, add_assignment role kind round_number id delivery_id db)

-- The transaction of `assign`: whether the limit of repair rounds pauses the run.
unfoldable pub assign_tx : String → Kind → ℕ → String → String → Tx Bool
assign_tx role kind round_number id delivery_id =
    Writes.◌>>=◌ (λ db. Writes.lift (repair_limit_reached role kind round_number db) db)
      (admit role kind round_number id delivery_id)

abbrev pub announce : String → Kind → ℕ → String → String → Bool → Exec (Unit {0})
announce role kind round_number id delivery_id true =
    broadcast_workflow WorkflowState.needs_attention round_number
announce role kind round_number id delivery_id false =
    send role (assignment delivery_id id round_number kind true)

module _ (run : Run) where
  unfoldable pub assign_connected : String → Kind → ℕ → Exec (Unit {0})
  assign_connected role kind round_number = do
    flush_pending_run_state run role round_number
    id ← draw run
    delivery_id ← draw run
    paused ← transact (assign_tx role kind round_number id delivery_id)
    announce role kind round_number id delivery_id paused

  -- A role that is not connected gets nothing.
  unfoldable pub if_connected : String → Exec (Unit {0}) → Exec (Unit {0})
  if_connected role action b = when (is_connected run role b) action b

  unfoldable pub assign : String → Kind → ℕ → Exec (Unit {0})
  assign role kind round_number = do
    lift (validate_assignment_kind role kind (contracts_value run.custom_contracts))
    if_connected role (assign_connected role kind round_number)
