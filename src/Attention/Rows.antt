-- ===== src/Attention/Rows.antt =====
-- The queries and updates of broker_attention.py and worker_attention.py.
use pi_tmux_orchestrator.Prelude.{
  String, Bool, true, false, ◌&&◌, Option, none, some, ◌==◌, String_eq, ℕ_eq, Option_eq,
  if◌then◌else◌,
}
use pi_tmux_orchestrator.Prelude.Result.{err, conflict}
use pi_tmux_orchestrator.Prelude.Table.{select, select_last, update}
use pi_tmux_orchestrator.Store.Rows.{
  Db, RoleRow, RoleState, Assignment, AssignmentState, ReminderState, ReportAttempt, WorkflowState,
}
use pi_tmux_orchestrator.Store.Writes.{Tx, pure, raise, record_event, set_workflow_state}
use pi_tmux_orchestrator.Broker.State.{Client, AttentionMetadata}

-- state IN ('accepted','delivering')
abbrev pub is_open : AssignmentState → Bool
is_open AssignmentState.accepted = true
is_open AssignmentState.delivering = true
is_open _ = false

abbrev pub is_unattempted : ReportAttempt → Bool
is_unattempted ReportAttempt.unattempted = true
is_unattempted _ = false

abbrev pub is_attention : ReportAttempt → Bool
is_attention ReportAttempt.attention = true
is_attention _ = false

abbrev pub is_unreserved : ReminderState → Bool
is_unreserved ReminderState.unreserved = true
is_unreserved _ = false

abbrev pub is_reserved : ReminderState → Bool
is_reserved ReminderState.reserved = true
is_reserved _ = false

-- UPDATE assignments SET … WHERE id=?
abbrev pub set_assignment : String → (Assignment → Assignment) → Db → Db
set_assignment id set db = record db {
  assignments = update (λ (a : Assignment). a.id == id) set db.assignments;
}

-- UPDATE roles SET … WHERE role=?
abbrev pub set_role : String → (RoleRow → RoleRow) → Db → Db
set_role role set db = record db { roles = update (λ (r : RoleRow). r.role == role) set db.roles }

-- The role row of the client, if it holds this assignment as its active one.
abbrev pub holds : String → String → RoleRow → Bool
holds role id r = r.role == role && r.active_assignment_id == some id

abbrev pub fenced : Client → Option String → Assignment → Option RoleRow → Tx Assignment
fenced client resume_id a none = raise conflict
fenced client resume_id a (some r) =
    if r.generation == client.generation && a.resume_id == resume_id then pure a else raise conflict

abbrev pub joined : Client → Option String → Option Assignment → Tx Assignment
joined client resume_id none db = err conflict
joined client resume_id (some a) db =
    fenced client resume_id a (select (holds client.role a.id) db.roles) db

abbrev pub is_candidate : String → Assignment → Bool
is_candidate assignment_id a = a.id == assignment_id && is_open a.state

-- `_active_attention_assignment`: the client's open assignment, or a conflict.
unfoldable pub active_attention_assignment : Client → String → Option String → Tx Assignment
active_attention_assignment client assignment_id resume_id db =
    joined client resume_id (select (is_candidate assignment_id) db.assignments) db

abbrev pub waiting_role : RoleRow → RoleRow
waiting_role r = record r { state = RoleState.waiting; activity = none }

-- if workflow not in {"uncertain", "ready"}: needs_attention
abbrev pub attention_state : WorkflowState → Db → Db
attention_state WorkflowState.uncertain db = db
attention_state WorkflowState.ready db = db
attention_state _ db = set_workflow_state WorkflowState.needs_attention db

-- `_attention_waiting`
unfoldable pub attention_waiting : Client → Assignment → Db → Db
attention_waiting client a db =
    let parked =
      set_role client.role waiting_role
        (set_assignment a.id (λ (x : Assignment). record x { resume_authorized = false }) db) in
    record_event "worker_attention"
      (record {
        role = some client.role;
        round_number = some a.round;
        assignment_id = some a.id;
        delivery_id = none;
        status = "needs_attention";
      })
      (attention_state parked.meta.workflow_state parked)

-- `record_report_rejection`; the assignment id of an untrusted frame may be anything (`none`).
unfoldable pub record_report_rejection : Option String → Client → Db → Db
record_report_rejection assignment_id client db =
    let active : Option String =
      elim (select (λ (r : RoleRow). r.role == client.role && r.generation == client.generation)
        db.roles) [ none ↦ none | some r ↦ r.active_assignment_id ] in
    record db {
      assignments =
          update
            (λ (a : Assignment).
              assignment_id == some a.id
              && a.role == client.role
              && is_unattempted a.report_attempt
              && is_open a.state
              && active == some a.id)
            (λ (a : Assignment). record a { report_attempt = ReportAttempt.rejected })
            db.assignments;
    }

metadata_of : Assignment → AttentionMetadata
metadata_of a = record {
  assignment_id = a.id;
  assignment_kind = a.kind;
  settlement_count = a.settlement_count;
  report_attempt = a.report_attempt;
  attention_reason = a.attention_reason;
  reminder_state = a.reminder_state;
  activity_phase = a.last_phase;
}

-- The active assignment, or the role's latest.
shown_assignment : Option String → String → Db → Option Assignment
unfolding select select_last
shown_assignment (some id) role db = select (λ (a : Assignment). a.id == id) db.assignments
shown_assignment none role db = select_last (λ (a : Assignment). a.role == role) db.assignments

-- `assignment_attention_metadata`
unfoldable pub assignment_attention_metadata : String → Db → Option AttentionMetadata
unfolding shown_assignment metadata_of select
assignment_attention_metadata role db = elim (select (λ (r : RoleRow). r.role == role) db.roles) [
  | none ↦ none
  | some r ↦ elim (shown_assignment r.active_assignment_id role db) [
    | none ↦ none
    | some a ↦ some (metadata_of a)
  ]
]
