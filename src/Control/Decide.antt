-- ===== src/Control/Decide.antt =====
-- The transaction of `handle_control` (broker_control.py): what it reads, and what it writes.
use pi_tmux_orchestrator.Prelude.{
  ℕ, ◌+◌, String, Bool, true, false, not, ◌&&◌, ◌||◌, Option, none, some, leb, ◌==◌, String_eq,
  Option_eq, if◌then◌else◌, is_some,
}
use pi_tmux_orchestrator.Prelude.Result.{
  Result, ok, err, ErrorCode, conflict, unauthorized, rejected, internal_error,
}
use pi_tmux_orchestrator.Prelude.Json.{int, decoded}
use pi_tmux_orchestrator.Prelude.Table.{select, exists, insert, update, length}
use pi_tmux_orchestrator.Store.Rows.{
  Db, RoleRow, RoleState, Assignment, AssignmentState, WorkflowState, ControlCommand,
}
use pi_tmux_orchestrator.Store.Writes
use pi_tmux_orchestrator.Store.Writes.{Tx, record_event, set_workflow_state, set_round}
use pi_tmux_orchestrator.Attention.Rows.{set_role}
use pi_tmux_orchestrator.Admission.Ledger.{extend_call_allowance}
use pi_tmux_orchestrator.Continuation.Policy.{
  policy_value, approved_repair_extension, needs_attention,
}
use pi_tmux_orchestrator.Worker.Delivery.{mark_handover_tx, role_in}
use pi_tmux_orchestrator.Control.Request.{
  Command, Action, send, abort, restart, restart_failed, repair, extend_calls, action_name,
}

abbrev pub max_rpc_commands : ℕ
max_rpc_commands = 4096

-- What the reads of the transaction lead to: the receipt of a command that is known, or the row of
-- the role that a new command is for.
pub data Checked : Type 0 where
  known : (status : String) → Checked
  fresh : RoleRow → Checked

abbrev pub has_command_id : String → ControlCommand → Bool
has_command_id id x = x.id == id

abbrev pub same_command : Command → ControlCommand → Bool
same_command c x = x.action == action_name c.action && x.role == c.role && x.delivery == c.delivery

abbrev pub is_handing_over : RoleState → Bool
is_handing_over RoleState.restarting = true
is_handing_over RoleState.recovering = true
is_handing_over _ = false

abbrev pub is_restart_failed : Action → Bool
is_restart_failed restart_failed = true
is_restart_failed _ = false

-- A full registry still takes the end of a handover that failed.
abbrev pub check_row : Command → Db → Option RoleRow → Result Checked
check_row c db none = err internal_error
check_row c db (some r) =
    if leb max_rpc_commands (length db.control_commands)
      && not (is_restart_failed c.action && is_handing_over r.state)
    then err rejected
    else ok (fresh r)

abbrev pub check_known : Command → Db → Option ControlCommand → Result Checked
check_known c db (some x) = if same_command c x then ok (known x.status) else err conflict
check_known c db none = check_row c db (select (λ (r : RoleRow). r.role == c.role) db.roles)

unfoldable pub check_command : Command → Db → Result Checked
check_command c db =
    if db.meta.control_token == c.token
    then check_known c db (select (has_command_id c.id) db.control_commands)
    else err unauthorized

-- The way that the rest of the transaction takes.
pub data Branch : Type 0 where
  handover_failed extended unreachable repaired busy reopened guided aborted restarted : Branch

abbrev pub is_waiting : RoleState → Bool
is_waiting RoleState.waiting = true
is_waiting _ = false

abbrev pub is_accepted : Option Assignment → Bool
is_accepted none = false
is_accepted (some a) = elim a.state as (λ _. Bool) [
  | AssignmentState.delivering ↦ false
  | AssignmentState.accepted ↦ true
  | AssignmentState.uncertain ↦ false
  | AssignmentState.completed ↦ false
]

-- LEFT JOIN assignments ON assignments.id=roles.active_assignment_id
abbrev pub active_row : RoleRow → Db → Option Assignment
active_row r db = elim r.active_assignment_id [
  | none ↦ none
  | some id ↦ select (λ (a : Assignment). a.id == id) db.assignments
]

-- While the workflow needs attention, only a role that waits with accepted work gets a message.
abbrev pub takes_message : RoleRow → Db → Bool
takes_message r db =
    not (needs_attention db.meta.workflow_state)
    || is_waiting r.state && is_some r.active_assignment_id && is_accepted (active_row r db)

abbrev pub is_ready : WorkflowState → Bool
is_ready WorkflowState.ready = true
is_ready _ = false

abbrev pub message_branch : Command → RoleRow → Db → Branch
message_branch c r db =
    if not (takes_message r db)
    then busy
    else if is_ready db.meta.workflow_state && c.role == "implementer"
    then reopened
    else guided

unfoldable pub branch_of : (connected started : Bool) → Command → RoleRow → Db → Branch
branch_of connected started c r db = elim c.action as (λ _. Branch) [
  | restart_failed ↦ handover_failed
  | extend_calls ↦ extended
  | restart ↦ if started then restarted else unreachable
  | repair ↦ if connected && started then repaired else unreachable
  | abort ↦ if connected then aborted else unreachable
  | send ↦ if connected then message_branch c r db else unreachable
]

-- What is left to do after the commit.
pub record Outcome : Type 0 where
  pub status : String
  pub repair_round : Option ℕ
  pub uncertain_round : Option ℕ

abbrev pub answered : String → Outcome
answered status = record { status = status; repair_round = none; uncertain_round = none }

abbrev pub event_for : String → Command → Option ℕ → String → Db → Db
event_for event c round_number status db =
    record_event event
      (record {
        role = some c.role;
        round_number = round_number;
        assignment_id = none;
        delivery_id = some c.id;
        status = status;
      })
      db

abbrev pub is_uncertain : RoleState → Bool
is_uncertain RoleState.uncertain = true
is_uncertain _ = false

abbrev pub marked : ℕ → Tx Outcome
marked n = Writes.pure (record (answered "accepted") { uncertain_round = some n })

-- The end of a handover that failed: under way, marked already, or not there.
unfoldable pub handover_failed_tx : Command → RoleState → Tx Outcome
handover_failed_tx c state =
    if is_handing_over state
    then Writes.◌>>=◌ (mark_handover_tx c.role (some c.id)) marked
    else Writes.pure (answered (if is_uncertain state then "accepted" else "conflict"))

abbrev pub is_conflict : ErrorCode → Bool
is_conflict conflict = true
is_conflict _ = false

-- `except OrchestrationError` around the call: a conflict is an answer, any other is raised.
abbrev pub or_conflict : {A : Type 0} → Result A → (A → Tx Outcome) → Tx Outcome
or_conflict (ok a) f = f a
or_conflict (err code) f =
    if is_conflict code then Writes.pure (answered "conflict") else Writes.raise code

unfoldable pub extended_tx : Command → Tx Outcome
extended_tx c db =
    or_conflict (extend_call_allowance (int c.extension) db)
      (λ (u, db') start.
        ok
          (answered "accepted", event_for "call_allowance_extended" c none "operator_approved" db'))
      db

abbrev pub repair_approved : Command → ℕ → Option ℕ → Db → Db
repair_approved c round_number limit db =
    event_for "continuation_approved" c (some round_number) "one_repair_round" (
      set_workflow_state WorkflowState.routing (record db {
        meta = record db.meta { continuation_policy = decoded (policy_value limit) };
      }))

unfoldable pub repaired_tx : Command → Tx Outcome
repaired_tx c db =
    or_conflict (approved_repair_extension db)
      (λ (n, limit) start.
        ok
          (record (answered "accepted") { repair_round = some n }, repair_approved c n limit start))
      db

abbrev pub reopen : Command → Db → Db
reopen c db =
    event_for "workflow_reopened" c (some (db.meta.round + 1)) "active"
      (set_workflow_state WorkflowState.active (set_round (db.meta.round + 1) db))

-- A message to the implementer of a workflow that is ready opens the next round.
unfoldable pub reopened_tx : Command → Tx Outcome
reopened_tx c db =
    ok (record (answered "accepted") { repair_round = some (db.meta.round + 1) }, reopen c db)

abbrev pub resumed : String → Assignment → Assignment
resumed id a = record a { resume_id = some id; resume_authorized = true }

abbrev pub authorize : Command → Db → Db
authorize c db = elim (select (λ (r : RoleRow). r.role == c.role) db.roles) [
  | none ↦ db
  | some r ↦ record db {
    assignments =
        update (λ (a : Assignment). r.active_assignment_id == some a.id) (resumed c.id)
          db.assignments;
  }
]

abbrev pub waits_elsewhere : String → RoleRow → Bool
waits_elsewhere role r =
    is_waiting r.state && is_some r.active_assignment_id && not (r.role == role)

-- The workflow runs on if no other role waits.
abbrev pub resume_workflow : Command → Db → Db
resume_workflow c db =
    let woken = set_role c.role (role_in RoleState.active) db in
    if exists (waits_elsewhere c.role) woken.roles
    then woken
    else set_workflow_state WorkflowState.active woken

abbrev pub guide : Command → Db → Db
guide c db =
    let allowed = authorize c db in
    if needs_attention db.meta.workflow_state then resume_workflow c allowed else allowed

unfoldable pub guided_tx : Command → Tx Outcome
guided_tx c db = ok (answered "accepted", guide c db)

abbrev pub next_generation : RoleRow → RoleRow
next_generation r = record r { generation = r.generation + 1; state = RoleState.restarting }

abbrev pub restart_role : Command → Db → Db
restart_role c db =
    event_for "worker_restart_requested" c none "accepted" (set_role c.role next_generation db)

unfoldable pub restarted_tx : Command → Tx Outcome
restarted_tx c db = ok (answered "accepted", restart_role c db)

unfoldable pub branch_tx : Command → RoleRow → Branch → Tx Outcome
branch_tx c r handover_failed = handover_failed_tx c r.state
branch_tx c r extended = extended_tx c
branch_tx c r unreachable = Writes.pure (answered "uncertain")
branch_tx c r repaired = repaired_tx c
branch_tx c r busy = Writes.pure (answered "conflict")
branch_tx c r reopened = reopened_tx c
branch_tx c r guided = guided_tx c
branch_tx c r aborted = Writes.pure (answered "accepted")
branch_tx c r restarted = restarted_tx c

abbrev pub command_row : Command → String → ControlCommand
command_row c status = record {
  id = c.id;
  action = action_name c.action;
  role = c.role;
  delivery = c.delivery;
  status = status;
}

-- The receipt, committed with what the command did.
abbrev pub with_receipt : Command → Outcome → Db → Db
with_receipt c outcome db =
    event_for "control_command" c none outcome.status
      (record db { control_commands = insert (command_row c outcome.status) db.control_commands })

unfoldable pub settle_tx : Command → RoleRow → Branch → Tx Outcome
settle_tx c r branch =
    Writes.◌>>=◌ (branch_tx c r branch) λ outcome db. ok (outcome, with_receipt c outcome db)
