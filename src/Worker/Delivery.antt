-- ===== src/Worker/Delivery.antt =====
-- `handle_delivery_ack`, `_mark_handover_uncertain` and `mark_handover_uncertain` (broker.py).
use pi_tmux_orchestrator.Prelude.{
  ℕ, String, Bool, true, false, ◌&&◌, ◌||◌, Option, none, some, ◌==◌, String_eq, Option_eq,
  if◌then◌else◌,
}
use pi_tmux_orchestrator.Prelude.Result.{Result, ok, err, invalid_protocol}
use pi_tmux_orchestrator.Prelude.Table.{select}
use pi_tmux_orchestrator.Store.Rows.{
  Db, RoleRow, RoleState, Assignment, AssignmentState, WorkflowState,
}
use pi_tmux_orchestrator.Store.Writes
use pi_tmux_orchestrator.Store.Writes.{Tx, record_event, set_workflow_state}
use pi_tmux_orchestrator.Broker.State.{Client}
use pi_tmux_orchestrator.Broker.Transport.{
  Exec, ◌>>=◌, ◌>>◌, pure, transact, reply, broadcast_workflow,
}
use pi_tmux_orchestrator.Attention.Rows.{set_assignment, set_role}
use pi_tmux_orchestrator.Attention.Handlers.{lift}
use pi_tmux_orchestrator.Worker.Progress.{role_row}

pub record Ack : Type 0 where
  pub id : String
  pub delivery_id : String
  pub status : String

-- The state that the assignment takes on.
abbrev pub acknowledged : String → Option AssignmentState
acknowledged status =
    if status == "accepted" || status == "duplicate"
    then some AssignmentState.accepted
    else if status == "uncertain"
    then some AssignmentState.uncertain
    else none

abbrev pub is_retained : AssignmentState → Bool
is_retained AssignmentState.completed = false
is_retained _ = true

abbrev pub active_id : String → Db → Option String
active_id role db = elim (select (λ (r : RoleRow). r.role == role) db.roles) [
  | none ↦ none
  | some r ↦ r.active_assignment_id
]

-- delivery_id=? AND role=? AND state IN (…) AND id=(SELECT active_assignment_id …)
abbrev pub is_delivered : Client → Ack → Option String → Assignment → Bool
is_delivered client m active a =
    a.delivery_id == m.delivery_id
    && a.role == client.role
    && is_retained a.state
    && active == some a.id

abbrev pub assignment_event : String → Client → Assignment → Option String → String → Db → Db
assignment_event event client a delivery status db =
    record_event event
      (record {
        role = some client.role;
        round_number = some a.round;
        assignment_id = some a.id;
        delivery_id = delivery;
        status = status;
      })
      db

abbrev pub in_state : AssignmentState → Assignment → Assignment
in_state state a = record a { state = state }

abbrev pub with_boundary : Assignment → Assignment
with_boundary a = record a { boundary_effective = true }

abbrev pub role_in : RoleState → RoleRow → RoleRow
role_in state r = record r { state = state }

-- role_state in {"disconnected", "idle", "recovering"}
abbrev pub is_away : RoleState → Bool
is_away RoleState.disconnected = true
is_away RoleState.idle = true
is_away RoleState.recovering = true
is_away _ = false

abbrev pub first_boundary : Client → Ack → Assignment → Db → Db
first_boundary client m a db =
    if a.boundary_effective
    then db
    else assignment_event "context_boundary" client a (some m.delivery_id) "effective"
        (set_assignment a.id with_boundary db)

abbrev pub accept : Client → Ack → Assignment → Db → Db
accept client m a db = first_boundary client m a (
    assignment_event "assignment_delivery" client a (some m.delivery_id) "accepted"
      (set_assignment a.id (in_state AssignmentState.accepted) db))

abbrev pub recovered : Client → Assignment → RoleRow → Db → Db
recovered client a r db =
    if is_away r.state
    then assignment_event "worker_handover_recovered" client a none "active"
        (set_role client.role (role_in RoleState.active) db)
    else db

abbrev pub become_uncertain : Client → Ack → Assignment → Db → Db
become_uncertain client m a db =
    assignment_event "workflow_uncertain" client a (some m.delivery_id) "uncertain" (
      set_workflow_state WorkflowState.uncertain
        (set_role client.role (role_in RoleState.uncertain) db))

abbrev pub doubt : Client → Ack → Assignment → Db → Db
doubt client m a db = become_uncertain client m a (
    assignment_event "assignment_delivery" client a (some m.delivery_id) "uncertain"
      (set_assignment a.id (in_state AssignmentState.uncertain) db))

-- The round that became uncertain, if one did.
abbrev pub settle : Client → Ack → Bool → Assignment → Tx (Option ℕ)
settle client m true a = Writes.◌>>◌ (Writes.modify (accept client m a)) (
    Writes.◌>>=◌ (role_row client.role)
      λ r. Writes.◌>>◌ (Writes.modify (recovered client a r)) (Writes.pure none))
settle client m false a =
    Writes.◌>>◌ (Writes.modify (doubt client m a)) (Writes.pure (some a.round))

abbrev pub settle_found : Client → Ack → Bool → Option Assignment → Tx (Option ℕ)
settle_found client m accepted none = Writes.pure none
settle_found client m accepted (some a) = settle client m accepted a

unfoldable pub ack_tx : Client → Ack → (accepted : Bool) → Tx (Option ℕ)
ack_tx client m accepted db =
    settle_found client m accepted
      (select (is_delivered client m (active_id client.role db)) db.assignments) db

abbrev pub known_status : Option AssignmentState → Result Bool
known_status none = err invalid_protocol
known_status (some AssignmentState.accepted) = ok true
known_status (some _) = ok false

abbrev pub announce_uncertain : Option ℕ → Exec (Unit {0})
announce_uncertain none = pure tt
announce_uncertain (some round) = broadcast_workflow WorkflowState.uncertain round

unfoldable pub handle_delivery_ack : Client → Ack → Exec (Unit {0})
handle_delivery_ack client m = do
  accepted ← lift (known_status (acknowledged m.status))
  uncertain_round ← transact (ack_tx client m accepted)
  announce_uncertain uncertain_round
  reply client m.id true "recorded"

-- `_mark_handover_uncertain`
unfoldable pub mark_handover_tx : String → Option String → Tx ℕ
mark_handover_tx role delivery db =
    let marked =
      set_workflow_state WorkflowState.uncertain (set_role role (role_in RoleState.uncertain) db) in
    ok (
      db.meta.round,
      record_event "worker_handover_uncertain"
          (record {
            role = some role;
            round_number = some db.meta.round;
            assignment_id = active_id role db;
            delivery_id = delivery;
            status = "uncertain";
          })
          marked,
    )

unfoldable pub mark_handover_uncertain : Client → Exec (Unit {0})
mark_handover_uncertain client = do
  round_number ← transact (mark_handover_tx client.role none)
  broadcast_workflow WorkflowState.uncertain round_number
