-- ===== src/Control/Handle.antt =====
-- `handle_control`, `_finish_repair_continuation` and `_handle_operator_send` (broker_control.py).
use pi_tmux_orchestrator.Prelude.{
  ℕ, ◌+◌, String, Bool, true, false, not, ◌&&◌, ◌||◌, Option, none, some, [], ◌∷◌, ◌==◌, String_eq,
  ℕ_eq, Option_eq, if◌then◌else◌, contains,
}
use pi_tmux_orchestrator.Prelude.Result.{Result, ok, err, broker_uncertain, connection_lost}
use pi_tmux_orchestrator.Prelude.Json.{Fields}
use pi_tmux_orchestrator.Prelude.Table.{exists, insert}
use pi_tmux_orchestrator.Store.Rows.{Db, RoleRow, Assignment, Kind, Kind_eq, WorkflowState}
use pi_tmux_orchestrator.Store.Writes
use pi_tmux_orchestrator.Store.Writes.{Tx, record_event, set_workflow_state}
use pi_tmux_orchestrator.Broker.State
use pi_tmux_orchestrator.Broker.State.{Broker, Answer}
use pi_tmux_orchestrator.Broker.Transport
use pi_tmux_orchestrator.Broker.Transport.{
  Exec, ◌>>=◌, ◌>>◌, pure, raise, when, transact, catch, broadcast_workflow,
}
use pi_tmux_orchestrator.Attention.Handlers.{lift}
use pi_tmux_orchestrator.Workflow.Deliver.{Run, deliver, flush_pending_run_state}
use pi_tmux_orchestrator.Workflow.Assign.{assign, event_of}
use pi_tmux_orchestrator.Workflow.Route.{deliver_run_state}
use pi_tmux_orchestrator.Control.Request.{Command, validate_control}
use pi_tmux_orchestrator.Control.Decide.{
  Checked, known, fresh, check_command, Branch, repaired, reopened, guided, aborted, restarted,
  branch_of, settle_tx, Outcome,
}

-- `send_raw` on the connection of the operator
unfoldable pub send_raw : Answer → Exec (Unit {0})
send_raw answer b = elim b.link [
  | [] ↦ (ok tt, record b { answered = insert answer b.answered })
  | up ∷ rest ↦
      if up
      then (ok tt, record b { answered = insert answer b.answered; link = rest })
      else (err connection_lost, record b { answered = insert answer b.answered; link = rest })
]

abbrev pub receipt : Command → String → Bool → Answer
receipt c status duplicate = record {
  id = c.id;
  success = status == "accepted";
  status = status;
  duplicate = duplicate;
}

abbrev pub check_tx : Command → Tx Checked
check_tx c db = Writes.lift (check_command c db) db

-- int(pending["value"]) == round_number
abbrev pub still_waits : ℕ → Db → Bool
still_waits n db = db.meta.pending_repair_round == some n

abbrev pub is_repair_of : ℕ → Assignment → Bool
is_repair_of n a = a.role == "implementer" && a.kind == Kind.implementation && a.round == n

-- The workflow's state and round, if the round was assigned.
unfoldable pub assigned_tx : ℕ → Tx (WorkflowState × ℕ)
assigned_tx n db =
    if still_waits n db || not (exists (is_repair_of n) db.assignments)
    then err broker_uncertain
    else ok ((db.meta.workflow_state, db.meta.round), db)

unfoldable pub continuation_failed : ℕ → Exec (Unit {0})
continuation_failed n = do
  transact (
      Writes.modify λ db.
        event_of "continuation_uncertain" "implementer" n none none "uncertain"
          (set_workflow_state WorkflowState.uncertain db))
  broadcast_workflow WorkflowState.uncertain n
  raise broker_uncertain

-- `restart_check` is what the code reads of files before a restart: the resources of a custom role, and
-- the manifest.
module _ (run : Run) (restart_check : String → Result (Unit {0})) where
  abbrev pub assign_repair : ℕ → Exec (Unit {0})
  assign_repair n = assign run "implementer" Kind.implementation n

  unfoldable pub confirm_repair : Answer → ℕ → Exec (Unit {0})
  confirm_repair answer n = do
    assign_repair n
    (state, current) ← transact (assigned_tx n)
    broadcast_workflow state current
    send_raw answer

  -- `_finish_repair_continuation`
  unfoldable pub finish_repair_continuation : Answer → ℕ → Exec (Unit {0})
  finish_repair_continuation answer n = catch (confirm_repair answer n) (continuation_failed n)

  -- The awaits of `_handle_operator_send`; its writes are `reopened_tx` and `guided_tx`.
  unfoldable pub deliver_reopening : String → Exec (Unit {0})
  deliver_reopening role b =
      (deliver_run_state run (role ∷ []) b.db.meta.round
          >> flush_pending_run_state run role b.db.meta.round
          >> deliver run role "operator_message" (b.db.meta.round + 1) false none)
        b

  unfoldable pub deliver_guidance : Command → Exec (Unit {0})
  deliver_guidance c b = deliver run c.role "operator_message" b.db.meta.round true (some c.id) b

  -- What is awaited before the transaction writes.
  unfoldable pub before_settling : Command → Branch → Exec (Unit {0})
  before_settling c reopened = deliver_reopening c.role
  before_settling c guided = deliver_guidance c
  before_settling c aborted = Transport.send c.role (State.abort c.id)
  before_settling c restarted = lift (restart_check c.role)
  before_settling c _ = pure tt

  abbrev pub reopen_round : Option ℕ → Exec (Unit {0})
  reopen_round none = pure tt
  reopen_round (some n) = broadcast_workflow WorkflowState.active n >> assign_repair n

  abbrev pub announce_uncertain : Option ℕ → Exec (Unit {0})
  announce_uncertain none = pure tt
  announce_uncertain (some n) = broadcast_workflow WorkflowState.uncertain n

  abbrev pub respond : Command → Outcome → Exec (Unit {0})
  respond c outcome = do
    send_raw (receipt c outcome.status false)
    reopen_round outcome.repair_round
    announce_uncertain outcome.uncertain_round

  abbrev pub confirm : Command → Outcome → Option ℕ → Exec (Unit {0})
  confirm c outcome (some n) = finish_repair_continuation (receipt c outcome.status false) n
  confirm c outcome none = respond c outcome

  -- After the commit: only a repair that was approved is confirmed by its assignment.
  unfoldable pub after_settling : Command → Outcome → Branch → Exec (Unit {0})
  after_settling c outcome repaired = confirm c outcome outcome.repair_round
  after_settling c outcome _ = respond c outcome

  unfoldable pub settle : Command → RoleRow → Branch → Exec (Unit {0})
  settle c r branch = do
    before_settling c branch
    outcome ← transact (settle_tx c r branch)
    after_settling c outcome branch

  unfoldable pub settle_fresh : Command → RoleRow → Exec (Unit {0})
  settle_fresh c r b =
      settle c r (branch_of (contains b.clients c.role) (contains b.baselines c.role) c r b.db) b

  abbrev pub answer_checked : Command → Checked → Exec (Unit {0})
  answer_checked c (known status) = send_raw (receipt c status true)
  answer_checked c (fresh r) = settle_fresh c r

  unfoldable pub handle_command : Command → Exec (Unit {0})
  handle_command c = transact (check_tx c) >>= answer_checked c

  unfoldable pub handle_control : Fields → Exec (Unit {0})
  handle_control m = lift (validate_control run.roles m) >>= handle_command
