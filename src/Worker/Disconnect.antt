-- ===== src/Worker/Disconnect.antt =====
-- The `finally` of `handle_client` (broker.py), for the client that its role has registered.
use pi_tmux_orchestrator.Prelude.{
  ℕ, String, Bool, true, false, ◌&&◌, Option, none, some, ◌==◌, String_eq, ℕ_eq, if◌then◌else◌,
}
use pi_tmux_orchestrator.Prelude.Result.{ok}
use pi_tmux_orchestrator.Store.Rows.{Db, RoleRow, RoleState}
use pi_tmux_orchestrator.Store.Writes
use pi_tmux_orchestrator.Store.Writes.{Tx, record_event, set_workflow_state, delete}
use pi_tmux_orchestrator.Broker.State.{Client}
use pi_tmux_orchestrator.Broker.Transport.{Exec, ◌>>=◌, ◌>>◌, transact}
use pi_tmux_orchestrator.Attention.Rows.{set_role}
use pi_tmux_orchestrator.Worker.Progress.{role_row}
use pi_tmux_orchestrator.Worker.Lifecycle.{state_name}
use pi_tmux_orchestrator.Worker.Delivery.{mark_handover_tx, announce_uncertain}

abbrev pub is_recovering : RoleState → Bool
is_recovering RoleState.recovering = true
is_recovering _ = false

-- The handover that was under way is this client's.
abbrev pub is_handover : Client → RoleRow → Bool
is_handover client r = is_recovering r.state && r.generation == client.generation

abbrev pub left_state : RoleState → RoleState
left_state RoleState.restarting = RoleState.restarting
left_state RoleState.recovering = RoleState.recovering
left_state RoleState.uncertain = RoleState.uncertain
left_state _ = RoleState.disconnected

abbrev pub state_after : Client → RoleRow → RoleState
state_after client r = if is_handover client r then RoleState.uncertain else left_state r.state

abbrev pub left : RoleState → RoleRow → RoleRow
left state r = record r { connected = false; state = state; activity = none }

abbrev pub leave : Client → RoleState → Db → Db
leave client state db =
    record_event "worker_disconnected"
      (record {
        role = some client.role;
        round_number = none;
        assignment_id = none;
        delivery_id = none;
        status = state_name state;
      })
      (set_role client.role (left state) db)

abbrev pub handover_round : Client → Bool → Tx (Option ℕ)
handover_round client true =
    Writes.◌>>=◌ (mark_handover_tx client.role none) (λ n. Writes.pure (some n))
handover_round client false = Writes.pure none

-- The round of a handover that became uncertain, if one did.
unfoldable pub disconnect_tx : Client → Tx (Option ℕ)
disconnect_tx client = Writes.◌>>=◌ (role_row client.role) λ r.
    Writes.◌>>=◌ (handover_round client (is_handover client r))
      λ round. Writes.◌>>◌ (Writes.modify (leave client (state_after client r))) (Writes.pure round)

-- self.clients.pop(client.role, None)
unfoldable pub drop_client : Client → Exec (Unit {0})
drop_client client b =
    (ok tt, record b { clients = delete (λ (x : String). x == client.role) b.clients })

unfoldable pub disconnect : Client → Exec (Unit {0})
disconnect client = do
  drop_client client
  round ← transact (disconnect_tx client)
  announce_uncertain round
