-- ===== src/Worker/Lifecycle.antt =====
-- `handle_lifecycle` (broker.py).
use pi_tmux_orchestrator.Prelude.{
  ℕ, String, Bool, true, false, not, ◌&&◌, Option, none, some, ◌==◌, String_eq, Option_eq,
  if◌then◌else◌, is_some,
}
use pi_tmux_orchestrator.Prelude.Result.{Result, ok, err, conflict, invalid_protocol}
use pi_tmux_orchestrator.Prelude.Json.{Value, Fields}
use pi_tmux_orchestrator.Prelude.Table.{exists}
use pi_tmux_orchestrator.Store.Rows.{Db, RoleRow, RoleState, Report, WorkflowState}
use pi_tmux_orchestrator.Store.Writes
use pi_tmux_orchestrator.Store.Writes.{Tx, record_event, set_workflow_state}
use pi_tmux_orchestrator.Admission.Ledger.{admission_status, Status}
use pi_tmux_orchestrator.Broker.State.{Client, lifecycle}
use pi_tmux_orchestrator.Broker.Transport.{
  Exec, ◌>>=◌, ◌>>◌, pure, transact, reply, broadcast, broadcast_workflow,
}
use pi_tmux_orchestrator.Attention.Rows.{set_role}
use pi_tmux_orchestrator.Attention.Handlers.{lift}
use pi_tmux_orchestrator.Worker.Usage.{checked_usage, usage_row}
use pi_tmux_orchestrator.Worker.Progress.{role_row, store}

-- A lifecycle frame; `assignment` is `none` when it has no such field, and `some none` for null.
pub record Lifecycle : Type 0 where
  pub id : String
  pub state : String
  pub usage : Value
  pub assignment : Option (Option String)

-- The states that a worker may report.
abbrev pub reported_state : String → Option RoleState
reported_state state =
    if state == "idle"
    then some RoleState.idle
    else if state == "active"
    then some RoleState.active
    else if state == "waiting"
    then some RoleState.waiting
    else if state == "uncertain"
    then some RoleState.uncertain
    else none

abbrev pub is_waiting : RoleState → Bool
is_waiting RoleState.waiting = true
is_waiting _ = false

abbrev pub is_uncertain : RoleState → Bool
is_uncertain RoleState.uncertain = true
is_uncertain _ = false

abbrev pub is_active : RoleState → Bool
is_active RoleState.active = true
is_active _ = false

-- SELECT 1 FROM reports WHERE assignment_id=? AND role=?
abbrev pub is_reported : String → Option String → Db → Bool
is_reported role id db =
    exists (λ (x : Report). some x.assignment_id == id && x.role == role) db.reports

-- if retained_state == "waiting" and state != "uncertain"
abbrev pub held : RoleState → RoleState → RoleState
held retained state =
    if is_waiting retained && not (is_uncertain state) then RoleState.waiting else state

-- A frame about an assignment: acknowledged without effect (`none`), a conflict, or a state to set.
abbrev pub about_assignment :
    RoleRow → RoleState → Option String → String → Db → Result (Option RoleState)
about_assignment r state assignment role db =
    if not (is_some assignment) && is_some r.active_assignment_id
    then ok none
    else if not (assignment == r.active_assignment_id)
    then (if not (is_some r.active_assignment_id) && is_reported role assignment db
        then ok none
        else err conflict)
    else if is_waiting (held r.state state)
    then ok none
    else ok (some (held r.state state))

-- A frame that names no assignment.
abbrev pub unassigned : RoleRow → RoleState → Result (Option RoleState)
unassigned r state =
    if is_waiting r.state && is_some r.active_assignment_id && not (is_uncertain state)
    then ok none
    else ok (some state)

unfoldable pub boundary :
    RoleRow → RoleState → Option (Option String) → String → Db → Result (Option RoleState)
boundary r state none role db = unassigned r state
boundary r state (some assignment) role db = about_assignment r state assignment role db

abbrev pub is_durable : RoleState → Bool
is_durable RoleState.recovering = true
is_durable RoleState.uncertain = true
is_durable _ = false

-- if retained_state in {"recovering", "uncertain"} and state != "uncertain": state = retained_state
abbrev pub retained_or : RoleState → RoleState → RoleState
retained_or retained state =
    if is_durable retained && not (is_uncertain state) then retained else state

abbrev pub state_name : RoleState → String
state_name RoleState.idle = "idle"
state_name RoleState.active = "active"
state_name RoleState.waiting = "waiting"
state_name RoleState.disconnected = "disconnected"
state_name RoleState.restarting = "restarting"
state_name RoleState.recovering = "recovering"
state_name RoleState.uncertain = "uncertain"

-- Any state but active clears the activity.
abbrev pub entered : RoleState → Option Fields → RoleRow → RoleRow
entered state usage r =
    usage_row usage
      (record r { state = state; activity = if is_active state then r.activity else none })

abbrev pub lifecycle_event : String → RoleState → Db → Db
lifecycle_event role state db =
    record_event "worker_lifecycle"
      (record {
        role = some role;
        round_number = none;
        assignment_id = none;
        delivery_id = none;
        status = state_name state;
      })
      db

abbrev pub enter : Client → RoleRow → Option Fields → Option RoleState → Tx (Option RoleState)
enter client r usage none = Writes.pure none
enter client r usage (some wanted) =
    let state = retained_or r.state wanted in
    Writes.◌>>◌
      (store usage r
        λ db. lifecycle_event client.role state (set_role client.role (entered state usage) db))
      (Writes.pure (some state))

-- The first transaction: the state that was set, or none when the frame is only acknowledged.
unfoldable pub lifecycle_tx : Client → Lifecycle → RoleState → Option Fields → Tx (Option RoleState)
lifecycle_tx client m state usage = Writes.◌>>=◌ (role_row client.role) λ r.
    Writes.◌>>=◌ (λ db. Writes.lift (boundary r state m.assignment client.role db) db)
      (enter client r usage)

abbrev pub is_truthy : Option String → Bool
is_truthy none = false
is_truthy (some id) = not (id == "")

abbrev pub workflow_event : String → String → Option String → String → Db → Db
workflow_event event role assignment status db =
    record_event event
      (record {
        role = some role;
        round_number = some db.meta.round;
        assignment_id = assignment;
        delivery_id = none;
        status = status;
      })
      db

abbrev pub transition :
    String → WorkflowState → String → Client → Option String → Tx (Option (WorkflowState × ℕ))
transition event state status client assignment db = ok (
  some (state, db.meta.round),
  workflow_event event client.role assignment status (set_workflow_state state db),
)

abbrev pub resumed : Client → Option String → Status → Tx (Option (WorkflowState × ℕ))
resumed client assignment status =
    if status.paused
    then Writes.pure none
    else transition "workflow_resumed" WorkflowState.active "active" client assignment

-- What the new state of a role with work makes of the workflow.
abbrev pub next_workflow :
    RoleState → WorkflowState → Client → Option String → Tx (Option (WorkflowState × ℕ))
next_workflow RoleState.uncertain WorkflowState.ready client id = Writes.pure none
next_workflow RoleState.uncertain WorkflowState.uncertain client id = Writes.pure none
next_workflow RoleState.uncertain _ client id =
    transition "workflow_uncertain" WorkflowState.uncertain "uncertain" client id
next_workflow RoleState.waiting WorkflowState.ready client id = Writes.pure none
next_workflow RoleState.waiting WorkflowState.uncertain client id = Writes.pure none
next_workflow RoleState.waiting WorkflowState.needs_attention client id = Writes.pure none
next_workflow RoleState.waiting _ client id =
    transition "workflow_needs_attention" WorkflowState.needs_attention "needs_attention" client id
next_workflow RoleState.active WorkflowState.needs_attention client id =
    Writes.◌>>=◌ (λ db. Writes.lift (admission_status db) db) (resumed client id)
next_workflow _ _ client id = Writes.pure none

-- state in {"active", "waiting", "uncertain"}
abbrev pub moves_workflow : RoleState → Bool
moves_workflow RoleState.active = true
moves_workflow RoleState.waiting = true
moves_workflow RoleState.uncertain = true
moves_workflow _ = false

abbrev pub next_for : RoleState → Client → RoleRow → Tx (Option (WorkflowState × ℕ))
next_for state client r db =
    if is_truthy r.active_assignment_id
    then next_workflow state db.meta.workflow_state client r.active_assignment_id db
    else ok (none, db)

-- The second transaction, which moves the workflow.
unfoldable pub transition_tx : Client → RoleState → Tx (Option (WorkflowState × ℕ))
transition_tx client state =
    if moves_workflow state
    then Writes.◌>>=◌ (role_row client.role) (next_for state client)
    else Writes.pure none

abbrev pub announce : Option (WorkflowState × ℕ) → Exec (Unit {0})
announce none = pure tt
announce (some (state, round)) = broadcast_workflow state round

abbrev pub after_lifecycle : Client → Lifecycle → Option RoleState → Exec (Unit {0})
after_lifecycle client m none = reply client m.id true "recorded"
after_lifecycle client m (some state) = do
  moved ← transact (transition_tx client state)
  broadcast (lifecycle client.role state)
  announce moved
  reply client m.id true "recorded"

abbrev pub wanted : Option RoleState → Result RoleState
wanted none = err invalid_protocol
wanted (some state) = ok state

unfoldable pub handle_lifecycle : Client → Lifecycle → Exec (Unit {0})
handle_lifecycle client m = do
  state ← lift (wanted (reported_state m.state))
  usage ← lift (checked_usage false m.usage)
  set ← transact (lifecycle_tx client m state usage)
  after_lifecycle client m set
