-- ===== src/Worker/Progress.antt =====
-- `handle_progress` (broker.py).
use pi_tmux_orchestrator.Prelude.{
  ◌+◌, String, true, not, Option, none, some, ◌==◌, String_eq, Option_eq, if◌then◌else◌,
}
use pi_tmux_orchestrator.Prelude.Result.{conflict, internal_error}
use pi_tmux_orchestrator.Prelude.Json.{Value, Fields}
use pi_tmux_orchestrator.Prelude.Table.{select}
use pi_tmux_orchestrator.Store.Rows.{Db, RoleRow, Assignment}
use pi_tmux_orchestrator.Store.Writes
use pi_tmux_orchestrator.Store.Writes.{Tx, record_event}
use pi_tmux_orchestrator.Broker.State.{Client}
use pi_tmux_orchestrator.Broker.Transport.{Exec, ◌>>=◌, ◌>>◌, transact, reply}
use pi_tmux_orchestrator.Attention.Rows.{set_assignment, set_role}
use pi_tmux_orchestrator.Attention.Handlers.{lift}
use pi_tmux_orchestrator.Worker.Usage.{checked_usage, usage_row, is_storable_usage, with_usage}

pub record Progress : Type 0 where
  pub id : String
  pub assignment_id : String
  pub phase : String
  pub usage : Value

-- SELECT … FROM roles WHERE role=?; a missing row makes the subscript raise.
abbrev pub found : Option RoleRow → Tx RoleRow
found none = Writes.raise internal_error
found (some r) = Writes.pure r

unfoldable pub role_row : String → Tx RoleRow
role_row role db = found (select (λ (r : RoleRow). r.role == role) db.roles) db

abbrev pub progressed : String → Option Fields → RoleRow → RoleRow
progressed phase usage r =
    usage_row usage
      (record r { activity = some phase; activity_sequence = r.activity_sequence + 1 })

abbrev pub progress_db : Client → Progress → Option Fields → Db → Db
progress_db client m usage db =
    set_role client.role (progressed m.phase usage) (
      set_assignment m.assignment_id (λ (a : Assignment). record a { last_phase = some m.phase })
        db)

abbrev pub progress_event : Client → Progress → Db → Db
progress_event client m db =
    record_event "worker_progress"
      (record {
        role = some client.role;
        round_number = some db.meta.round;
        assignment_id = some m.assignment_id;
        delivery_id = none;
        status = m.phase;
      })
      db

-- A number that SQLite cannot store makes the UPDATE raise.
abbrev pub store : Option Fields → RoleRow → (Db → Db) → Tx (Unit {0})
store none r write = Writes.modify write
store (some usage) r write =
    if is_storable_usage (with_usage usage r.usage)
    then Writes.modify write
    else Writes.raise internal_error

unfoldable pub progress_tx : Client → Progress → Option Fields → Tx (Unit {0})
progress_tx client m usage = Writes.◌>>=◌ (role_row client.role) λ r.
    if not (r.active_assignment_id == some m.assignment_id)
    then Writes.raise conflict
    else Writes.◌>>◌ (store usage r (progress_db client m usage))
        (Writes.when (not (r.activity == some m.phase)) (Writes.modify (progress_event client m)))

unfoldable pub handle_progress : Client → Progress → Exec (Unit {0})
handle_progress client m = do
  usage ← lift (checked_usage true m.usage)
  transact (progress_tx client m usage)
  reply client m.id true "recorded"
