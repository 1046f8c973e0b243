-- ===== src/Dispatch/Connect.antt =====
-- The `hello` of a worker, at the start of `handle_client` (broker.py).
use Prim.Native.Nat.{ℕ}
use pi_tmux_orchestrator.Prelude.{
  String, Bool, true, false, not, Option, none, some, ◌∷◌, ◌==◌, String_eq, ℕ_eq, if◌then◌else◌,
  List, contains, ◌≡◌, refl, ap, ◌∙◌, arith, inl, inr, ◌⊎◌, Bool-cases, eq_iff,
}
use pi_tmux_orchestrator.Prelude.Result.{Result, ok, err, unauthorized, conflict}
use pi_tmux_orchestrator.Prelude.Json.{Value}
use pi_tmux_orchestrator.Prelude.Table.{select, select_sound}
use pi_tmux_orchestrator.Store.Rows.{Db, RoleRow, RoleState, WorkflowState}
use pi_tmux_orchestrator.Store.Writes.{Tx, record_event}
use pi_tmux_orchestrator.Broker.State.{Client}
use pi_tmux_orchestrator.Broker.Transport.{Exec, ◌>>=◌, ◌>>◌, when, transact, reply}
use pi_tmux_orchestrator.Attention.Rows.{set_role}
use pi_tmux_orchestrator.Worker.Delivery.{mark_handover_uncertain}
use pi_tmux_orchestrator.Workflow.Deliver.{Run}
use pi_tmux_orchestrator.Workflow.Known.{select-update}
use pi_tmux_orchestrator.Workflow.Start.{is_connecting, maybe_start_workflow}
use pi_tmux_orchestrator.Workflow.Recover.{recover_role}

-- A valid `hello` frame.
pub record Hello : Type 0 where
  pub id : String
  pub role : String
  pub token : String
  pub generation : ℕ

-- What the transaction found.
pub record Found : Type 0 where
  pub handover : Bool
  pub interrupted_handover : Bool
  pub workflow_state : WorkflowState

abbrev pub is_restarting : RoleState → Bool
is_restarting RoleState.restarting = true
is_restarting _ = false

abbrev pub is_recovering : RoleState → Bool
is_recovering RoleState.recovering = true
is_recovering _ = false

-- The worker of a restart recovers; any other is idle.
abbrev pub connected_state : RoleRow → RoleState
connected_state r = if is_restarting r.state then RoleState.recovering else RoleState.idle

abbrev pub connected_row : RoleState → RoleRow → RoleRow
connected_row state r = record r { connected = true; state = state; activity = none }

abbrev pub state_text : Bool → String
state_text true = "recovering"
state_text false = "idle"

abbrev pub connected : Hello → RoleRow → Db → Db
connected hello r db =
    record_event "worker_connected"
      (record {
        role = some hello.role;
        round_number = none;
        assignment_id = none;
        delivery_id = none;
        status = state_text (is_restarting r.state);
      })
      (set_role hello.role (connected_row (connected_state r)) db)

abbrev pub found_in : RoleRow → Db → Found
found_in r db = record {
  handover = is_restarting r.state;
  interrupted_handover = is_recovering r.state;
  workflow_state = db.meta.workflow_state;
}

abbrev pub connect_row : List String → Hello → Option RoleRow → Tx Found
connect_row clients hello none db = err unauthorized
connect_row clients hello (some r) db =
    if not (r.auth_token == hello.token)
    then err unauthorized
    else if not (hello.generation == r.generation)
    then err unauthorized
    else if contains clients hello.role
    then err conflict
    else ok (found_in r db, connected hello r db)

unfoldable pub connect_tx : List String → Hello → Tx Found
connect_tx clients hello db =
    connect_row clients hello (select (λ (r : RoleRow). r.role == hello.role) db.roles) db

module _ (run : Run) (task : Value) (capsule_check : Result (Unit {0})) where
  -- self.clients[role] = client
  unfoldable pub add_client : String → Exec (Unit {0})
  add_client role b = (ok tt, record b { clients = role ∷ b.clients })

  abbrev pub recover_connected : Client → Found → Exec (Unit {0})
  recover_connected client found =
      if found.interrupted_handover
      then mark_handover_uncertain client
      else recover_role run capsule_check client found.handover

  -- From the `hello` to the first frame that the worker sends.
  unfoldable pub connect : Hello → Exec (Unit {0})
  connect hello b =
      (transact (connect_tx b.clients hello) >>= λ found.
      add_client hello.role
      >> reply (record { role = hello.role; generation = hello.generation }) hello.id true
          "connected"
      >> maybe_start_workflow run task
      >> when (not (is_connecting found.workflow_state))
          (recover_connected (record { role = hello.role; generation = hello.generation }) found))
        b

-- The worker is the one of its role's row, and nobody else was connected for the role.
pub record Admitted (clients : List String) (hello : Hello) (db db' : Db) : Type 0 where
  pub row : RoleRow
  pub found : select (λ (r : RoleRow). r.role == hello.role) db.roles ≡ some row
  pub token : row.auth_token ≡ hello.token
  pub generation : row.generation ≡ hello.generation
  pub single : contains clients hello.role ≡ false
  pub after : RoleRow
  pub there : select (λ (r : RoleRow). r.role == hello.role) db'.roles ≡ some after
  pub here : after.connected ≡ true
  pub silent : after.activity ≡ none
  pub same_work : after.active_assignment_id ≡ row.active_assignment_id
  pub same_generation : after.generation ≡ row.generation
  pub same_token : after.auth_token ≡ row.auth_token
  pub state :
      ((row.state ≡ RoleState.restarting) × (after.state ≡ RoleState.recovering))
      ⊎ ((¬ (row.state ≡ RoleState.restarting)) × (after.state ≡ RoleState.idle))
  pub same_workflow : db'.meta ≡ db.meta
  pub same_assignments : db'.assignments ≡ db.assignments

restarting-eq : (s : RoleState) → is_restarting s ≡ true → s ≡ RoleState.restarting
restarting-eq s h = ground arith

connected_state-cases :
    (r : RoleRow)
    → ((r.state ≡ RoleState.restarting) × (connected_state r ≡ RoleState.recovering))
      ⊎ ((¬ (r.state ≡ RoleState.restarting)) × (connected_state r ≡ RoleState.idle))
connected_state-cases r = elim (Bool-cases (is_restarting r.state)) [
  | inl again ↦ inl (restarting-eq r.state again, ground (arith, again))
  | inr new ↦ inr (λ e. absurd (ground (arith, e, new)), ground (arith, new))
]

connect_row-some :
    (clients : List String) (hello : Hello) (r : RoleRow) (db : Db) {f : Found} {db' : Db}
    → select (λ (x : RoleRow). x.role == hello.role) db.roles ≡ some r
    → connect_row clients hello (some r) db ≡ ok (f, db')
    → Admitted clients hello db db'
unfolding record_event
connect_row-some clients hello r db {f} {db'} there h =
    elim (Bool-cases (r.auth_token == hello.token)) [
      | inr other ↦ absurd (ground (arith, other))
      | inl token ↦ elim (Bool-cases (hello.generation == r.generation)) [
        | inr stale ↦ absurd (ground (arith, token, stale))
        | inl current ↦ elim (Bool-cases (contains clients hello.role)) [
          | inl twice ↦ absurd (ground (arith, token, current, twice))
          | inr single ↦
              let done : db' ≡ connected hello r db = ground (arith, token, current, single) in
              let mine : (r.role == hello.role) ≡ true =
                select_sound (λ (x : RoleRow). x.role == hello.role) db.roles {x = r} there in
              record {
                row = r;
                found = there;
                token = (eq_iff r.auth_token hello.token).0 token;
                generation = ground (arith, current);
                single = single;
                after = connected_row (connected_state r) r;
                there = rw done (
                    select-update (λ (x : RoleRow). x.role == hello.role)
                      (λ (x : RoleRow). x.role == hello.role) (connected_row (connected_state r))
                      db.roles {x = r} (λ y. refl) there
                    ∙ ap (λ t. some (if t then connected_row (connected_state r) r else r)) mine);
                here = refl;
                silent = refl;
                same_work = refl;
                same_generation = refl;
                same_token = refl;
                state = connected_state-cases r;
                same_workflow = rw done refl;
                same_assignments = rw done refl;
              }
        ]
      ]
    ]

connect_row-Admitted :
    (clients : List String) (hello : Hello) (row : Option RoleRow) (db : Db) {f : Found} {db' : Db}
    → select (λ (x : RoleRow). x.role == hello.role) db.roles ≡ row
    → connect_row clients hello row db ≡ ok (f, db')
    → Admitted clients hello db db'
connect_row-Admitted clients hello none db there h = absurd (ground arith)
connect_row-Admitted clients hello (some r) db {f} {db'} there h =
    connect_row-some clients hello r db {f = f} {db' = db'} there h

-- A worker that is admitted has shown the token and the current generation of its role, and nobody was
-- connected for the role. Its role is then connected, without activity, recovering if it was
-- restarting and idle otherwise; the role's work, generation and token, the workflow and the
-- assignments are as they were.
pub connect_tx-Admitted :
    (clients : List String) (hello : Hello) (db : Db) {f : Found} {db' : Db}
    → connect_tx clients hello db ≡ ok (f, db')
    → Admitted clients hello db db'
unfolding connect_tx
connect_tx-Admitted clients hello db {f} {db'} h =
    connect_row-Admitted clients hello (select (λ (r : RoleRow). r.role == hello.role) db.roles) db
      {f = f} {db' = db'} refl h
