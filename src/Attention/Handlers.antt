-- ===== src/Attention/Handlers.antt =====
-- The handlers of `BrokerAttentionSupport` (broker_attention.py).
use pi_tmux_orchestrator.Prelude.{
  ℕ, ◌+◌, min, String, Bool, true, false, not, ◌&&◌, Option, none, some, ◌==◌, String_eq, ℕ_eq,
  Option_eq, if◌then◌else◌,
}
use pi_tmux_orchestrator.Prelude.Result.{Result, err, broker_uncertain, internal_error}
use pi_tmux_orchestrator.Prelude.Json.{Value}
use pi_tmux_orchestrator.Prelude.Table.{select}
use pi_tmux_orchestrator.Store.Rows.{
  Db, RoleRow, RoleState, Assignment, ReminderState, ReportAttempt, WorkflowState,
}
use pi_tmux_orchestrator.Store.Writes
use pi_tmux_orchestrator.Store.Writes.{Tx, record_event}
use pi_tmux_orchestrator.Admission.Ledger.{reserve_provider_turn}
use pi_tmux_orchestrator.Broker.State.{Client, report_reminder, assignment_state, attention}
use pi_tmux_orchestrator.Broker.Transport.{
  Exec, ◌>>=◌, ◌>>◌, raise, when, transact, catch, send, reply, broadcast, broadcast_workflow,
}
use pi_tmux_orchestrator.Attention.Validate.{validate_attention}
use pi_tmux_orchestrator.Attention.Rows.{
  active_attention_assignment, attention_waiting, assignment_attention_metadata, set_assignment,
  set_role, waiting_role, is_unattempted, is_attention, is_unreserved, is_reserved,
}

-- A validated frame of a worker about its assignment.
pub record Signal : Type 0 where
  pub id : String
  pub assignment_id : String
  pub resume_id : Option String

abbrev pub active : Client → Signal → Tx Assignment
active client m = active_attention_assignment client m.assignment_id m.resume_id

-- A missing role row makes the subscript raise.
abbrev pub show_state : Client → Option RoleRow → Exec (Unit {0})
show_state client none b = (err internal_error, b)
show_state client (some r) b =
    broadcast
      (assignment_state client.role r.state (assignment_attention_metadata client.role b.db)) b

-- `broadcast_assignment_state`
unfoldable pub broadcast_assignment_state : Client → Exec (Unit {0})
broadcast_assignment_state client b =
    show_state client (select (λ (r : RoleRow). r.role == client.role) b.db.roles) b

abbrev pub rejected_attempt : Assignment → Assignment
rejected_attempt a = record a { report_attempt = ReportAttempt.rejected }

unfoldable pub rejected_report_tx : Client → Signal → Tx (Unit {0})
rejected_report_tx client m = Writes.◌>>=◌ (active client m) λ a.
    Writes.when (is_unattempted a.report_attempt)
      (Writes.modify (set_assignment a.id rejected_attempt))

unfoldable pub handle_rejected_report : Client → Signal → Exec (Unit {0})
handle_rejected_report client m = do
  transact (rejected_report_tx client m)
  reply client m.id true "recorded"
  broadcast_assignment_state client

abbrev pub in_attention : String → Assignment → Assignment
in_attention reason a = record a {
  report_attempt = ReportAttempt.attention;
  attention_reason = some reason;
}

-- The assignment, and whether the signal repeats an attention that nobody has answered.
unfoldable pub attention_tx : Client → Signal → String → Tx (Assignment × Bool)
attention_tx client m reason = Writes.◌>>=◌ (active client m) λ a.
    let duplicate = is_attention a.report_attempt && not a.resume_authorized in
    Writes.◌>>◌
      (Writes.when (not duplicate) (
        Writes.modify
          λ db. attention_waiting client a (set_assignment a.id (in_attention reason) db)))
      (Writes.pure (a, duplicate))

abbrev pub receipt : Bool → String
receipt true = "duplicate"
receipt false = "recorded"

abbrev pub lift : {A : Type 0} → Result A → Exec A
lift r b = (r, b)

unfoldable pub handle_attention : Client → Signal → Value → Exec (Unit {0})
handle_attention client m value = do
  checked ← lift (validate_attention value)
  (a, duplicate) ← transact (attention_tx client m checked.reason)
  reply client m.id true (receipt duplicate)
  broadcast_assignment_state client
  when (not duplicate) do
    broadcast (attention client.role a.id checked.reason)
    broadcast_workflow WorkflowState.needs_attention a.round

-- What `handle_settlement` decides in its transaction.
pub record Settlement : Type 0 where
  pub assignment : Assignment
  pub duplicate : Bool
  pub nudge : Bool

-- min(2, assignment["settlement_count"] + 1)
abbrev pub next_count : Assignment → ℕ
next_count a = min 2 (a.settlement_count + 1)

abbrev pub deserves_nudge : Assignment → Bool
deserves_nudge a =
    next_count a == 1 && is_unreserved a.reminder_state && not (is_attention a.report_attempt)

abbrev pub settled : String → Assignment → Assignment → Assignment
settled id a x = record x { settlement_count = next_count a; last_settlement_id = some id }

abbrev pub reserved_reminder : Assignment → Assignment
reserved_reminder x = record x {
  reminder_state = ReminderState.reserved;
  resume_authorized = false;
}

abbrev pub reserve_reminder : Client → Assignment → Db → Db
reserve_reminder client a db =
    record_event "report_reminder_reserved"
      (record {
        role = some client.role;
        round_number = some a.round;
        assignment_id = some a.id;
        delivery_id = none;
        status = "reserved";
      })
      (set_role client.role waiting_role (set_assignment a.id reserved_reminder db))

abbrev pub settle : Client → Signal → Assignment → Db → Db
settle client m a db =
    let counted = set_assignment a.id (settled m.id a) db in
    if deserves_nudge a
    then reserve_reminder client a counted
    else attention_waiting client a counted

unfoldable pub settlement_tx : Client → Signal → Tx Settlement
settlement_tx client m = Writes.◌>>=◌ (active client m) λ a.
    let duplicate = a.last_settlement_id == some m.id in
    Writes.◌>>◌ (Writes.when (not duplicate) (Writes.modify (settle client m a))) (
      Writes.pure (record {
        assignment = a;
        duplicate = duplicate;
        nudge = not duplicate && deserves_nudge a;
      }))

abbrev pub used_reminder : Assignment → Assignment
used_reminder a = record a { reminder_state = ReminderState.used }

-- `except Exception` around the write of the reminder.
unfoldable pub reminder_failed : Client → Assignment → Exec (Unit {0})
reminder_failed client a = do
  transact (Writes.modify λ db. attention_waiting client a (set_assignment a.id used_reminder db))
  broadcast_assignment_state client
  broadcast_workflow WorkflowState.needs_attention a.round
  raise broker_uncertain

unfoldable pub send_reminder : Client → Assignment → Exec (Unit {0})
send_reminder client a =
    catch (send client.role (report_reminder a.id a.resume_id)) (reminder_failed client a)

unfoldable pub handle_settlement : Client → Signal → Exec (Unit {0})
handle_settlement client m = do
  s ← transact (settlement_tx client m)
  reply client m.id true (receipt s.duplicate)
  broadcast_assignment_state client
  when s.nudge (send_reminder client s.assignment)
  when (not s.duplicate && not s.nudge)
      (broadcast_workflow WorkflowState.needs_attention s.assignment.round)

abbrev pub turn_event : Client → Assignment → Bool → Db → Db
turn_event client a allowed db =
    record_event "provider_turn_admission"
      (record {
        role = some client.role;
        round_number = some a.round;
        assignment_id = some a.id;
        delivery_id = none;
        status = if allowed then "granted" else "denied";
      })
      db

-- An assignment that waits for the operator gets no turn; otherwise the ledger decides.
abbrev pub turn_decision : Client → Signal → Assignment → Tx Bool
turn_decision client m a =
    if is_attention a.report_attempt && not a.resume_authorized
    then Writes.pure false
    else reserve_provider_turn (record {
      request_id = m.id;
      role = client.role;
      assignment_id = a.id;
      generation = client.generation;
      resume_id = m.resume_id;
    })

-- A denial leaves the assignment blocked; either answer is recorded.
unfoldable pub finish_turn : Client → Assignment → Bool → Tx (Assignment × Bool)
finish_turn client a allowed =
    Writes.◌>>◌
      (Writes.when (not allowed) (
        Writes.modify
          λ db. attention_waiting client a (set_assignment a.id (in_attention "blocked") db)))
      (Writes.◌>>◌ (Writes.modify (turn_event client a allowed)) (Writes.pure (a, allowed)))

unfoldable pub turn_for : Client → Signal → Assignment → Tx (Assignment × Bool)
turn_for client m a = Writes.◌>>=◌ (turn_decision client m a) (finish_turn client a)

unfoldable pub provider_turn_tx : Client → Signal → Tx (Assignment × Bool)
provider_turn_tx client m = Writes.◌>>=◌ (active client m) (turn_for client m)

abbrev pub turn_status : Bool → String
turn_status true = "granted"
turn_status false = "conflict"

unfoldable pub handle_provider_turn : Client → Signal → Exec (Unit {0})
handle_provider_turn client m = do
  (a, allowed) ← transact (provider_turn_tx client m)
  reply client m.id allowed (turn_status allowed)
  when (not allowed) do
    broadcast_assignment_state client
    broadcast (attention client.role a.id "blocked")
    broadcast_workflow WorkflowState.needs_attention a.round

abbrev pub active_role : RoleRow → RoleRow
active_role r = record r { state = RoleState.active }

unfoldable pub recovery_turn_tx : Client → Signal → Tx (Assignment × Bool)
recovery_turn_tx client m = Writes.◌>>=◌ (active client m) λ a.
    let allowed = is_reserved a.reminder_state && not (is_attention a.report_attempt) in
    Writes.◌>>◌
      (Writes.modify λ db.
        if allowed
        then set_role client.role active_role (set_assignment a.id used_reminder db)
        else attention_waiting client a db)
      (Writes.pure (a, allowed))

unfoldable pub handle_recovery_turn : Client → Signal → Exec (Unit {0})
handle_recovery_turn client m = do
  (a, allowed) ← transact (recovery_turn_tx client m)
  reply client m.id allowed (turn_status allowed)
  broadcast_assignment_state client
  when (not allowed) (broadcast_workflow WorkflowState.needs_attention a.round)
