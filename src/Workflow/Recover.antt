-- ===== src/Workflow/Recover.antt =====
-- `recover_role` (broker.py): what a worker that connects again is given.
use pi_tmux_orchestrator.Prelude.{
  ℕ, String, Bool, true, false, not, ◌&&◌, ◌||◌, Option, none, some, ◌==◌, String_eq, if◌then◌else◌,
  contains,
}
use pi_tmux_orchestrator.Prelude.Result.{Result, ok, err, internal_error}
use pi_tmux_orchestrator.Prelude.Table.{select_last, exists}
use pi_tmux_orchestrator.Store.Rows.{
  Db, RoleState, Assignment, AssignmentState, Report, WorkflowState,
}
use pi_tmux_orchestrator.Store.Writes
use pi_tmux_orchestrator.Store.Writes.{Tx, set_workflow_state}
use pi_tmux_orchestrator.Broker.State.{Client, assignment, assignment_closed}
use pi_tmux_orchestrator.Broker.Transport.{
  Exec, ◌>>=◌, ◌>>◌, pure, raise, when, transact, send, broadcast_workflow,
}
use pi_tmux_orchestrator.Attention.Rows.{
  set_assignment, set_role, attention_waiting, is_attention, is_unreserved, is_reserved,
}
use pi_tmux_orchestrator.Attention.Handlers.{lift, broadcast_assignment_state, used_reminder}
use pi_tmux_orchestrator.Roles.Contracts.{contracts_value, validate_assignment_kind}
use pi_tmux_orchestrator.Worker.Delivery.{mark_handover_uncertain, in_state, role_in}
use pi_tmux_orchestrator.Workflow.Deliver.{
  Run, draw, deliver, deliver_state, materialize_pending_run_state,
}
use pi_tmux_orchestrator.Workflow.Assign.{event_of}
use pi_tmux_orchestrator.Workflow.Accept.{is_orchestration}

-- state IN ('delivering','accepted','uncertain')
abbrev pub is_unfinished : AssignmentState → Bool
is_unfinished AssignmentState.completed = false
is_unfinished _ = true

abbrev pub is_delivering : AssignmentState → Bool
is_delivering AssignmentState.delivering = true
is_delivering _ = false

-- A delivery that the worker has not acknowledged, or has doubted.
abbrev pub is_in_doubt : AssignmentState → Bool
is_in_doubt AssignmentState.delivering = true
is_in_doubt AssignmentState.uncertain = true
is_in_doubt _ = false

unfoldable pub unfinished : String → Db → Option Assignment
unfolding select_last
unfinished role db =
    select_last (λ (a : Assignment). a.role == role && is_unfinished a.state) db.assignments

abbrev pub is_uncertain : WorkflowState → Bool
is_uncertain WorkflowState.uncertain = true
is_uncertain _ = false

abbrev pub doubt_assignment : Client → Assignment → Db → Db
doubt_assignment client a db =
    if is_delivering a.state
    then event_of "assignment_uncertain" client.role a.round (some a.id) (some a.delivery_id)
        "uncertain" (set_assignment a.id (in_state AssignmentState.uncertain) db)
    else db

abbrev pub doubt_workflow : Client → Assignment → Db → Db
doubt_workflow client a db =
    if is_uncertain db.meta.workflow_state
    then db
    else event_of "workflow_uncertain" client.role a.round (some a.id) none "uncertain"
        (set_workflow_state WorkflowState.uncertain db)

unfoldable pub doubt_tx : Client → Assignment → Tx (Unit {0})
doubt_tx client a db = ok (
  tt,
  doubt_workflow client a
      (set_role client.role (role_in RoleState.uncertain) (doubt_assignment client a db)),
)

unfoldable pub recover_in_doubt : Client → Assignment → Exec (Unit {0})
recover_in_doubt client a = do
  transact (doubt_tx client a)
  broadcast_workflow WorkflowState.uncertain a.round

abbrev pub recovered_idle : Client → Db → Db
recovered_idle client db =
    event_of "worker_handover_recovered" client.role db.meta.round none none "idle"
      (set_role client.role (role_in RoleState.idle) db)

abbrev pub close_report : Client → Option Report → Exec (Unit {0})
close_report client none = pure tt
close_report client (some x) = send client.role (assignment_closed x.assignment_id x.id)

abbrev pub last_report : Client → Tx (Option Report)
last_report client db = ok (select_last (λ (x : Report). x.role == client.role) db.reports, db)

-- Without an assignment, the worker is told that its last report closed one.
unfoldable pub recover_idle : Client → (handover : Bool) → Exec (Unit {0})
recover_idle client handover = do
  accepted ← transact (last_report client)
  close_report client accepted
  when handover (transact (Writes.modify (recovered_idle client)))

abbrev pub is_waiting_recovery : Assignment → Bool
is_waiting_recovery a =
    not a.resume_authorized
    && (not (is_unreserved a.reminder_state) || is_attention a.report_attempt)

abbrev pub use_reminder : Assignment → Assignment
use_reminder a = if is_reserved a.reminder_state then used_reminder a else a

-- An assignment that waits for the operator is given back without a turn.
unfoldable pub recover_waiting : Client → Assignment → Exec (Unit {0})
recover_waiting client a = do
  transact (Writes.modify λ db. attention_waiting client a (set_assignment a.id use_reminder db))
  broadcast_assignment_state client
  broadcast_workflow WorkflowState.needs_attention a.round

abbrev pub redelivering : String → Assignment → Assignment
redelivering delivery_id a = record a {
  delivery_id = delivery_id;
  state = AssignmentState.delivering;
}

-- UNIQUE(delivery_id), which an UPDATE must not break either
abbrev pub is_taken : String → String → Assignment → Bool
is_taken id delivery_id x = x.delivery_id == delivery_id && not (x.id == id)

unfoldable pub renew_tx : String → String → Tx (Unit {0})
renew_tx id delivery_id db =
    if exists (is_taken id delivery_id) db.assignments
    then err internal_error
    else ok (tt, set_assignment id (redelivering delivery_id) db)

-- `capsule_check` is the validation of the workspace capsule, where the run has one.
module _ (run : Run) (capsule_check : Result (Unit {0})) where
  unfoldable pub renew_delivery : Assignment → Exec String
  renew_delivery a = do
    delivery_id ← draw run
    transact (renew_tx a.id delivery_id)
    pure delivery_id

  abbrev pub delivery_for : Assignment → (handover : Bool) → Exec String
  delivery_for a true = renew_delivery a
  delivery_for a false = pure a.delivery_id

  unfoldable pub recover_accepted : Client → (handover : Bool) → Assignment → Exec (Unit {0})
  recover_accepted client handover a = do
    when (is_waiting_recovery a) (recover_waiting client a)
    delivery_id ← delivery_for a handover
    send client.role (assignment delivery_id a.id a.round a.kind (not (is_waiting_recovery a)))

  abbrev pub recover_rest : Client → (handover : Bool) → Option Assignment → Exec (Unit {0})
  recover_rest client handover none = recover_idle client handover
  recover_rest client handover (some a) = recover_accepted client handover a

  -- The baseline and the run state of a worker that was handed over, or the end of the recovery.
  unfoldable pub hand_over : Client → ℕ → Exec (Unit {0}) → Exec (Unit {0})
  hand_over client round_number rest b =
      if contains b.baselines client.role
      then (deliver run client.role "baseline" round_number false none
            >> (materialize_pending_run_state run client.role round_number
                >>= deliver_state run client.role round_number)
            >> rest)
          b
      else mark_handover_uncertain client b

  abbrev pub checked_hand_over : Client → ℕ → Exec (Unit {0}) → Result (Unit {0}) → Exec (Unit {0})
  checked_hand_over client round_number rest (ok u) = hand_over client round_number rest
  checked_hand_over client round_number rest (err code) =
      if is_orchestration code then mark_handover_uncertain client else raise code

  abbrev pub after_handover : Client → ℕ → (handover : Bool) → Exec (Unit {0}) → Exec (Unit {0})
  after_handover client round_number true rest =
      checked_hand_over client round_number rest capsule_check
  after_handover client round_number false rest = rest

  abbrev pub check_kind : Client → Option Assignment → Result (Unit {0})
  check_kind client none = ok tt
  check_kind client (some a) =
      validate_assignment_kind client.role a.kind (contracts_value run.custom_contracts)

  abbrev pub is_doubted : Option Assignment → Bool
  is_doubted none = false
  is_doubted (some a) = is_in_doubt a.state

  abbrev pub recover_doubted : Client → Option Assignment → Exec (Unit {0})
  recover_doubted client none = pure tt
  recover_doubted client (some a) = recover_in_doubt client a

  unfoldable pub recover_found :
      Client → (handover : Bool) → ℕ → Option Assignment → Exec (Unit {0})
  recover_found client handover round_number found = do
    lift (check_kind client found)
    if is_doubted found
        then recover_doubted client found
        else after_handover client round_number handover (recover_rest client handover found)

  unfoldable pub recover_role : Client → (handover : Bool) → Exec (Unit {0})
  recover_role client handover b =
      recover_found client handover b.db.meta.round (unfinished client.role b.db) b
