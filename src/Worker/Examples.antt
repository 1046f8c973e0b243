-- ===== src/Worker/Examples.antt =====
-- Tests of the worker frames on the sample run.
use pi_tmux_orchestrator.Prelude.{◌≡◌, refl, true, none, some, [], ◌∷◌, ◌==◌, String_eq}
use pi_tmux_orchestrator.Prelude.Result.{ok}
use pi_tmux_orchestrator.Prelude.Json.{null}
use pi_tmux_orchestrator.Prelude.Table.{select, update}
use pi_tmux_orchestrator.Store.Rows.{Db, RoleState, RoleRow, WorkflowState}
use pi_tmux_orchestrator.Store.Writes.{record_event, set_workflow_state}
use pi_tmux_orchestrator.Store.Samples.{sample, implementer_row, reviewer_row, first_assignment}
use pi_tmux_orchestrator.Broker.State.{Client}
use pi_tmux_orchestrator.Worker.Progress.{role_row}
use pi_tmux_orchestrator.Worker.Lifecycle.{Lifecycle, boundary, lifecycle_tx, lifecycle_event}
use pi_tmux_orchestrator.Worker.Delivery.{Ack, ack_tx, accept, mark_handover_tx}
use pi_tmux_orchestrator.Worker.Boundaries.{Step, lifecycle_tx-Step}
use pi_tmux_orchestrator.Worker.Disconnect.{disconnect_tx, leave}
use pi_tmux_orchestrator.Worker.Left.{Left, disconnect_tx-Left}
use pi_tmux_orchestrator.Worker.Acknowledged.{Settled, ack_tx-Settled}

abbrev implementer : Client
implementer = record { role = "implementer"; generation = 1 }

-- A replacement worker is on its way.
abbrev recovering_row : RoleRow
recovering_row = record implementer_row { state = RoleState.recovering }

abbrev recovering : Db
recovering = record sample { roles = recovering_row ∷ reviewer_row ∷ [] }

abbrev greeting : Lifecycle
greeting = record { id = "l1"; state = "active"; usage = null; assignment = none }

greeting_is_recorded :
    lifecycle_tx implementer greeting RoleState.active none recovering
    ≡ ok (
      some RoleState.recovering,
      lifecycle_event "implementer" RoleState.recovering (record recovering {
        roles = record recovering_row { activity = none } ∷ reviewer_row ∷ [];
      }),
    )
unfolding lifecycle_tx role_row boundary select update record_event
greeting_is_recorded = refl

implementer_recovers :
    select (λ (x : RoleRow). x.role == "implementer") recovering.roles ≡ some recovering_row
unfolding select
implementer_recovers = refl

lifecycle_tx-Step_example :
    (r' : RoleRow) × (select
        (λ (x : RoleRow). x.role == "implementer")
        (record recovering_row { activity = none } ∷ reviewer_row ∷ [])
      ≡ some r')
    × Step RoleState.active recovering_row r'
unfolding record_event
lifecycle_tx-Step_example =
    lifecycle_tx-Step implementer greeting RoleState.active none recovering greeting_is_recorded
      implementer_recovers

abbrev ack : Ack
ack = record { id = "k1"; delivery_id = "d1"; status = "accepted" }

ack_is_recorded :
    ack_tx implementer ack true sample ≡ ok (none, accept implementer ack first_assignment sample)
unfolding ack_tx select update record_event role_row
ack_is_recorded = refl

ack_tx-Settled_example :
    Settled implementer ack sample true none (accept implementer ack first_assignment sample)
ack_tx-Settled_example = ack_tx-Settled implementer ack true sample ack_is_recorded

abbrev after_loss : Db
after_loss = leave implementer RoleState.uncertain (
    record_event "worker_handover_uncertain"
      (record {
        role = some "implementer";
        round_number = some 1;
        assignment_id = some "a1";
        delivery_id = none;
        status = "uncertain";
      })
      (record recovering {
        meta = record recovering.meta { workflow_state = WorkflowState.uncertain };
        roles = record recovering_row { state = RoleState.uncertain } ∷ reviewer_row ∷ [];
      }))

handover_is_lost : disconnect_tx implementer recovering ≡ ok (some 1, after_loss)
unfolding disconnect_tx role_row mark_handover_tx select update record_event set_workflow_state
handover_is_lost = refl

disconnect_tx-Left_example : Left implementer recovering_row recovering after_loss
disconnect_tx-Left_example =
    disconnect_tx-Left implementer recovering_row recovering implementer_recovers handover_is_lost
