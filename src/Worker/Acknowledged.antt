-- ===== src/Worker/Acknowledged.antt =====
-- What an acknowledged delivery leaves behind (broker.py).
use pi_tmux_orchestrator.Prelude.{
  ℕ, ◌≡◌, refl, ◌∙◌, Bool, true, false, Option, none, some, List, ◌==◌, String_eq, arith, eq_iff,
  Option-cases, Bool-cases, inl, inr,
}
use pi_tmux_orchestrator.Prelude.Result.{ok}
use pi_tmux_orchestrator.Prelude.Table.{select, update, All, All-update, All-written}
use pi_tmux_orchestrator.Store.Rows.{
  Db, RoleRow, RoleState, Assignment, AssignmentState, WorkflowState,
}
use pi_tmux_orchestrator.Store.Writes.{record_event, set_workflow_state, settled_state, is_paused}
use pi_tmux_orchestrator.Broker.State.{Client}
use pi_tmux_orchestrator.Worker.Progress.{role_row}
use pi_tmux_orchestrator.Worker.Delivery.{
  Ack, active_id, is_delivered, accept, doubt, recovered, settle, ack_tx, in_state, with_boundary,
}

-- Every row of the assignment is in this state.
abbrev pub AllIn : AssignmentState → Assignment → Db → Type 0
AllIn state a db = All (λ (x : Assignment). x.id ≡ a.id → x.state ≡ state) db.assignments

-- The assignment that an acknowledgement is about: the client's own active one, not yet completed.
abbrev pub delivered : Client → Ack → Db → Option Assignment
delivered client m db = select (is_delivered client m (active_id client.role db)) db.assignments

-- Nothing at all, or the assignment is accepted and the workflow left alone, or the assignment, its
-- role and the workflow are uncertain.
pub data Settled (client : Client) (m : Ack) (db : Db) : Bool → Option ℕ → Db → Type 0 where
  unknown : {accepted : Bool} → delivered client m db ≡ none → Settled client m db accepted none db
  accepted :
      {db' : Db} (a : Assignment)
      → delivered client m db ≡ some a
      → AllIn AssignmentState.accepted a db'
      → db'.meta ≡ db.meta
      → Settled client m db true none db'
  uncertain :
      {db' : Db} (a : Assignment)
      → delivered client m db ≡ some a
      → AllIn AssignmentState.uncertain a db'
      → All (λ (r : RoleRow). r.role ≡ client.role → r.state ≡ RoleState.uncertain) db'.roles
      → db'.meta.workflow_state ≡ WorkflowState.uncertain
      → Settled client m db false (some a.round) db'

AllIn-set :
    (state : AssignmentState) (a : Assignment) (rows : List Assignment)
    → All
        (λ (x : Assignment). x.id ≡ a.id → x.state ≡ state)
        (update (λ (x : Assignment). x.id == a.id) (in_state state) rows)
AllIn-set state a rows =
    All-written _ _ (in_state state) rows (λ x t e. refl)
      (λ x t e. absurd (ground (arith, eq_iff x.id a.id)))

accept-AllIn :
    (client : Client) (m : Ack) (a : Assignment) (db : Db)
    → AllIn AssignmentState.accepted a (accept client m a db)
unfolding record_event
accept-AllIn client m a db = elim (Bool-cases a.boundary_effective) [
  | inl effective ↦ rw effective (AllIn-set AssignmentState.accepted a db.assignments)
  | inr new ↦ rw new (
      All-update _ _ with_boundary _ (λ x t p. p)
        (AllIn-set AssignmentState.accepted a db.assignments))
]

accept-meta :
    (client : Client) (m : Ack) (a : Assignment) (db : Db) → (accept client m a db).meta ≡ db.meta
unfolding record_event
accept-meta client m a db = ground arith

recovered-rest :
    (client : Client) (a : Assignment) (r : RoleRow) (db : Db)
    → ((recovered client a r db).meta ≡ db.meta)
      × ((recovered client a r db).assignments ≡ db.assignments)
unfolding record_event
recovered-rest client a r db = (ground arith, ground arith)

doubt-roles :
    (client : Client) (m : Ack) (a : Assignment) (db : Db)
    → All
        (λ (r : RoleRow). r.role ≡ client.role → r.state ≡ RoleState.uncertain)
        (doubt client m a db).roles
unfolding record_event set_workflow_state
doubt-roles client m a db =
    All-written _ _ _ db.roles (λ r t e. refl)
      (λ r t e. absurd (ground (arith, eq_iff r.role client.role)))

doubt-assignments :
    (client : Client) (m : Ack) (a : Assignment) (db : Db)
    → AllIn AssignmentState.uncertain a (doubt client m a db)
unfolding record_event set_workflow_state
doubt-assignments client m a db = AllIn-set AssignmentState.uncertain a db.assignments

doubt-workflow :
    (client : Client) (m : Ack) (a : Assignment) (db : Db)
    → (doubt client m a db).meta.workflow_state ≡ WorkflowState.uncertain
unfolding record_event set_workflow_state
doubt-workflow client m a db = uncertain_stays (is_paused db)
  where
    uncertain_stays :
        (paused : Bool) → settled_state paused WorkflowState.uncertain ≡ WorkflowState.uncertain
    uncertain_stays true = refl
    uncertain_stays false = refl

settle-Settled :
    (client : Client) (m : Ack) (status : Bool) (db : Db) (a : Assignment) {u : Option ℕ} {db' : Db}
    → delivered client m db ≡ some a
    → settle client m status a db ≡ ok (u, db')
    → Settled client m db status u db'
unfolding role_row
settle-Settled client m true db a {u} {db'} d h =
    elim (Option-cases
      (select (λ (r : RoleRow). r.role == client.role) (accept client m a db).roles)) [
        | inl missing ↦ absurd (ground (arith, missing))
        | inr (r, found) ↦
            let none_uncertain : u ≡ none = ground (arith, found) in
            let done : db' ≡ recovered client a r (accept client m a db) = ground (arith, found) in
            let rest = recovered-rest client a r (accept client m a db) in
            rw (none_uncertain, done)
              (accepted a d (rw rest.1 (accept-AllIn client m a db))
                (rest.0 ∙ accept-meta client m a db))
      ]
settle-Settled client m false db a {u} {db'} d h =
    let round : u ≡ some a.round = ground arith in
    let done : db' ≡ doubt client m a db = ground arith in
    rw (round, done)
      (uncertain a d (doubt-assignments client m a db) (doubt-roles client m a db)
        (doubt-workflow client m a db))

-- A committed acknowledgement about anything but the client's own active, uncompleted delivery changes
-- nothing; an accepted one leaves the assignment accepted and the workflow as it was; an uncertain one
-- leaves the assignment, the client's role and the workflow uncertain.
pub ack_tx-Settled :
    (client : Client) (m : Ack) (status : Bool) (db : Db) {u : Option ℕ} {db' : Db}
    → ack_tx client m status db ≡ ok (u, db')
    → Settled client m db status u db'
unfolding ack_tx
ack_tx-Settled client m status db {u} {db'} h = elim (Option-cases (delivered client m db)) [
  | inl missing ↦
      let none_uncertain : u ≡ none = ground (arith, missing) in
      let done : db' ≡ db = ground (arith, missing) in rw (none_uncertain, done) (unknown missing)
  | inr (a, d) ↦ settle-Settled client m status db a {u = u} {db' = db'} d (rw d at h)
]
