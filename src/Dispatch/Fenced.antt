-- ===== src/Dispatch/Fenced.antt =====
-- A restart fences off the worker that ran before (broker_control.py, broker.py).
use pi_tmux_orchestrator.Prelude.{
  ℕ, ◌+◌, String, ◌≡◌, refl, ap, ◌∙◌, Bool, true, false, some, arith, ◌==◌, String_eq, ℕ_eq,
  if◌then◌else◌,
}
use pi_tmux_orchestrator.Prelude.Result.{ok, err, unauthorized}
use pi_tmux_orchestrator.Prelude.Table.{select, select_sound}
use pi_tmux_orchestrator.Store.Rows.{Db, RoleRow}
use pi_tmux_orchestrator.Store.Writes.{record_event}
use pi_tmux_orchestrator.Broker.State.{Broker, Client}
use pi_tmux_orchestrator.Broker.Transport.{◌>>=◌}
use pi_tmux_orchestrator.Workflow.Deliver.{Run}
use pi_tmux_orchestrator.Workflow.Known.{select-update}
use pi_tmux_orchestrator.Control.Request.{Command}
use pi_tmux_orchestrator.Control.Decide.{
  restarted, settle_tx, branch_tx, restarted_tx, restart_role, next_generation, with_receipt,
  Outcome, answered,
}
use pi_tmux_orchestrator.Dispatch.Message.{WorkerMessage, check_generation, fence, handle_message}

abbrev is_role : String → RoleRow → Bool
is_role role r = r.role == role

-- The row after a restart of its role.
restarted-row :
    (c : Command) (r row : RoleRow) (db : Db) {outcome : Outcome} {db' : Db}
    → settle_tx c r restarted db ≡ ok (outcome, db')
    → select (is_role c.role) db.roles ≡ some row
    → select (is_role c.role) db'.roles ≡ some (next_generation row)
unfolding settle_tx branch_tx restarted_tx record_event
restarted-row c r row db {outcome} {db'} h found =
    let done : db' ≡ with_receipt c (answered "accepted") (restart_role c db) = ground arith in
    let mine : is_role c.role row ≡ true = select_sound (is_role c.role) db.roles {x = row} found in
    rw done (
      select-update (is_role c.role) (is_role c.role) next_generation db.roles {x = row} (λ y. refl)
        found
      ∙ ap (λ t. some (if t then next_generation row else row)) mine)

stale : (n : ℕ) → (n + 1 == n) ≡ false
stale n = ground arith

refused :
    (run : Run) (client : Client) (m : WorkerMessage) (b : Broker)
    → check_generation client b.db ≡ err unauthorized
    → handle_message run client m b ≡ (err unauthorized, b)
unfolding handle_message ◌>>=◌
refused run client m b e = rw (e, handle_message, ◌>>=◌) refl

-- Once a restart of a role has committed, no frame of the worker that was connected before is handled:
-- whatever it says, it is refused as unauthorized, and nothing changes.
pub settle_tx-handle_message :
    (run : Run) (c : Command) (r row : RoleRow) (client : Client) (m : WorkerMessage) (b : Broker)
    {outcome : Outcome} {db' : Db}
    → settle_tx c r restarted b.db ≡ ok (outcome, db')
    → select (λ (x : RoleRow). x.role == c.role) b.db.roles ≡ some row
    → client.role ≡ c.role
    → client.generation ≡ row.generation
    → handle_message run client m (record b { db = db' })
      ≡ (err unauthorized, record b { db = db' })
unfolding check_generation
settle_tx-handle_message run c r row client m b {outcome} {db'} h found same old =
    refused run client m (record b { db = db' })
      (ap (λ role. fence client (select (is_role role) db'.roles)) same
        ∙ ap (fence client) (restarted-row c r row b.db {outcome = outcome} {db' = db'} h found)
        ∙ fenced)
  where
    fenced : fence client (some (next_generation row)) ≡ err unauthorized
    fenced = ground (arith, old)
