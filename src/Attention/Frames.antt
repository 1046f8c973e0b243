-- ===== src/Attention/Frames.antt =====
-- The frames that are not about attention leave the reminders alone (broker.py).
use pi_tmux_orchestrator.Prelude.{ℕ, String, true, Option, none, some, List, String_eq, Option_eq}
use pi_tmux_orchestrator.Prelude.Result.{Result, ok, err}
use pi_tmux_orchestrator.Store.Rows.{RoleState, WorkflowState}
use pi_tmux_orchestrator.Store.Writes
use pi_tmux_orchestrator.Store.Writes.{bind-eq-ok, record_event, set_workflow_state}
use pi_tmux_orchestrator.Broker.State.{Broker, Client, Frame}
use pi_tmux_orchestrator.Broker.Transport.{transact}
use pi_tmux_orchestrator.Broker.Rules.{
  Holds, Post, Keeps, Triple-bind, Triple-then, Triple-transact, Keeps-pure, Keeps-broadcast,
  Keeps-broadcast_workflow,
}
use pi_tmux_orchestrator.Attention.Handlers.{lift, receipt}
use pi_tmux_orchestrator.Attention.OneShot.{IsOneShot}
use pi_tmux_orchestrator.Attention.Reminders.{Keeps-reply}
use pi_tmux_orchestrator.Budget.Guardrail.{GuardrailMessage, handle_guardrail}
use pi_tmux_orchestrator.Worker.Progress.{Progress, handle_progress}
use pi_tmux_orchestrator.Worker.Delivery.{Ack, announce_uncertain, handle_delivery_ack}
use pi_tmux_orchestrator.Worker.Lifecycle.{Lifecycle, announce, after_lifecycle, handle_lifecycle}
use pi_tmux_orchestrator.Workflow.Routing.{KeepsTx}
use pi_tmux_orchestrator.Attention.Transactions.{
  progress_tx-IsOneShot, guardrail_tx-IsOneShot, ack_tx-IsOneShot, lifecycle_tx-IsOneShot,
  transition_tx-IsOneShot,
}

pub Keeps-lift : {A : Type 0} (r : Result A) → Keeps IsOneShot (lift r)
Keeps-lift {A} r = record { at = λ b h. kept r b h }
  where
    kept : (r : Result A) (b : Broker) → Holds IsOneShot b → Post (λ _. IsOneShot) IsOneShot r b
    kept (ok a) b h = h
    kept (err c) b h = h

Keeps-tx :
    {A : Type 0} (tx : Writes.Tx A)
    → ((sent : List (String × Frame)) → KeepsTx (λ db. IsOneShot db sent) tx)
    → Keeps IsOneShot (transact tx)
Keeps-tx tx k = Triple-transact tx λ db sent a db' e h. k sent db a db' e h

module _ (client : Client) where
  pub handle_progress-IsOneShot : (m : Progress) → Keeps IsOneShot (handle_progress client m)
  unfolding handle_progress
  handle_progress-IsOneShot m = Triple-bind _ _ _ (Keeps-lift _) λ usage.
      Triple-then _ _ _ (Keeps-tx _ λ sent. progress_tx-IsOneShot sent client m usage)
        (Keeps-reply client m.id true "recorded")

  pub handle_guardrail-IsOneShot :
      (m : GuardrailMessage) → Keeps IsOneShot (handle_guardrail client m)
  unfolding handle_guardrail
  handle_guardrail-IsOneShot m =
      Triple-bind _ _ _ (Keeps-tx _ λ sent. guardrail_tx-IsOneShot sent client m)
        λ duplicate. Keeps-reply client m.id true (receipt duplicate)

  Keeps-announce_uncertain : (round : Option ℕ) → Keeps IsOneShot (announce_uncertain round)
  Keeps-announce_uncertain none = Keeps-pure tt
  Keeps-announce_uncertain (some round) = Keeps-broadcast_workflow WorkflowState.uncertain round

  pub handle_delivery_ack-IsOneShot : (m : Ack) → Keeps IsOneShot (handle_delivery_ack client m)
  unfolding handle_delivery_ack
  handle_delivery_ack-IsOneShot m = Triple-bind _ _ _ (Keeps-lift _) λ accepted.
      Triple-bind _ _ _ (Keeps-tx _ λ sent. ack_tx-IsOneShot sent client m accepted) λ round.
        Triple-then _ _ _ (Keeps-announce_uncertain round) (Keeps-reply client m.id true "recorded")

  Keeps-announce : (moved : Option (WorkflowState × ℕ)) → Keeps IsOneShot (announce moved)
  Keeps-announce none = Keeps-pure tt
  Keeps-announce (some (state, round)) = Keeps-broadcast_workflow state round

  Keeps-after_lifecycle :
      (m : Lifecycle) (state : Option RoleState) → Keeps IsOneShot (after_lifecycle client m state)
  Keeps-after_lifecycle m none = Keeps-reply client m.id true "recorded"
  Keeps-after_lifecycle m (some state) =
      Triple-bind _ _ _ (Keeps-tx _ λ sent. transition_tx-IsOneShot sent client state) λ moved.
        Triple-then _ _ _ (Keeps-broadcast _)
          (Triple-then _ _ _ (Keeps-announce moved) (Keeps-reply client m.id true "recorded"))

  pub handle_lifecycle-IsOneShot : (m : Lifecycle) → Keeps IsOneShot (handle_lifecycle client m)
  unfolding handle_lifecycle
  handle_lifecycle-IsOneShot m = Triple-bind _ _ _ (Keeps-lift _) λ state.
      Triple-bind _ _ _ (Keeps-lift _) λ usage.
        Triple-bind _ _ _ (Keeps-tx _ λ sent. lifecycle_tx-IsOneShot sent client m state usage)
          (Keeps-after_lifecycle m)
