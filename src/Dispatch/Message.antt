-- ===== src/Dispatch/Message.antt =====
-- `handle_message` (broker.py), on frames that `validate_client_message` has accepted.
use pi_tmux_orchestrator.Prelude.{Option, none, some, ◌==◌, String_eq, ℕ_eq, if◌then◌else◌}
use pi_tmux_orchestrator.Prelude.Result.{Result, ok, err, unauthorized, internal_error}
use pi_tmux_orchestrator.Prelude.Json.{Value}
use pi_tmux_orchestrator.Prelude.Table.{select}
use pi_tmux_orchestrator.Store.Rows.{Db, RoleRow}
use pi_tmux_orchestrator.Broker.State.{Client}
use pi_tmux_orchestrator.Broker.Transport.{Exec, ◌>>◌}
use pi_tmux_orchestrator.Attention.Handlers.{
  lift, Signal, broadcast_assignment_state, handle_attention, handle_settlement,
  handle_rejected_report, handle_recovery_turn, handle_provider_turn,
}
use pi_tmux_orchestrator.Worker.Progress.{Progress, handle_progress}
use pi_tmux_orchestrator.Worker.Lifecycle.{Lifecycle, handle_lifecycle}
use pi_tmux_orchestrator.Worker.Delivery.{Ack, handle_delivery_ack}
use pi_tmux_orchestrator.Budget.Guardrail.{GuardrailMessage, handle_guardrail}
use pi_tmux_orchestrator.Workflow.Deliver.{Run}
use pi_tmux_orchestrator.Workflow.Accept.{ReportMessage, handle_report}

pub data WorkerMessage : Type 0 where
  lifecycle : Lifecycle → WorkerMessage
  report : ReportMessage → WorkerMessage
  progress : Progress → WorkerMessage
  attention : Signal → Value → WorkerMessage
  settlement : Signal → WorkerMessage
  rejected_report : Signal → WorkerMessage
  recovery_turn : Signal → WorkerMessage
  provider_turn : Signal → WorkerMessage
  guardrail : GuardrailMessage → WorkerMessage
  ack : Ack → WorkerMessage

abbrev pub fence : Client → Option RoleRow → Result (Unit {0})
fence client none = err internal_error
fence client (some r) = if r.generation == client.generation then ok tt else err unauthorized

-- A worker of an earlier generation is refused.
unfoldable pub check_generation : Client → Db → Result (Unit {0})
unfolding select
check_generation client db = fence client (select (λ (r : RoleRow). r.role == client.role) db.roles)

module _ (run : Run) where
  unfoldable pub dispatch : Client → WorkerMessage → Exec (Unit {0})
  dispatch client (lifecycle m) = handle_lifecycle client m
  dispatch client (report m) = handle_report run client m >> broadcast_assignment_state client
  dispatch client (progress m) = handle_progress client m
  dispatch client (attention m value) = handle_attention client m value
  dispatch client (settlement m) = handle_settlement client m
  dispatch client (rejected_report m) = handle_rejected_report client m
  dispatch client (recovery_turn m) = handle_recovery_turn client m
  dispatch client (provider_turn m) = handle_provider_turn client m
  dispatch client (guardrail m) = handle_guardrail client m
  dispatch client (ack m) = handle_delivery_ack client m

  unfoldable pub handle_message : Client → WorkerMessage → Exec (Unit {0})
  handle_message client m b = (lift (check_generation client b.db) >> dispatch client m) b
