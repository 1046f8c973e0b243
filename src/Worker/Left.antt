-- ===== src/Worker/Left.antt =====
-- What a lost connection leaves of a role (broker.py).
use pi_tmux_orchestrator.Prelude.{
  ℕ, ◌≡◌, refl, ◌∙◌, Bool, true, false, Option, none, some, ◌==◌, String_eq, arith, Bool-cases, inl,
  inr, ◌⊎◌,
}
use pi_tmux_orchestrator.Prelude.Result.{ok, Result-cases}
use pi_tmux_orchestrator.Prelude.Table.{select, update}
use pi_tmux_orchestrator.Store.Rows.{Db, RoleRow, RoleState, WorkflowState}
use pi_tmux_orchestrator.Store.Writes.{record_event, set_workflow_state, settled_state, is_paused}
use pi_tmux_orchestrator.Broker.State.{Client}
use pi_tmux_orchestrator.Worker.Progress.{role_row}
use pi_tmux_orchestrator.Worker.Delivery.{mark_handover_tx, role_in}
use pi_tmux_orchestrator.Worker.Boundaries.{select-update}
use pi_tmux_orchestrator.Worker.Disconnect.{
  is_handover, is_recovering, state_after, left, leave, handover_round, disconnect_tx,
}

-- The states that a lost connection does not end.
abbrev pub IsDurable : RoleState → Type 0
IsDurable RoleState.restarting = Unit
IsDurable RoleState.recovering = Unit
IsDurable RoleState.uncertain = Unit
IsDurable _ = ⊥

-- A handover to this client makes the role and the workflow uncertain; else the workflow is as it was,
-- and the role keeps a durable state and is disconnected from any other.
pub data Ended (client : Client) (r row : RoleRow) (db db' : Db) : Type 0 where
  handed_over :
      r.state ≡ RoleState.recovering
      → r.generation ≡ client.generation
      → row.state ≡ RoleState.uncertain
      → db'.meta.workflow_state ≡ WorkflowState.uncertain
      → Ended client r row db db'
  stale :
      r.state ≡ RoleState.recovering
      → ¬ (r.generation ≡ client.generation)
      → row.state ≡ RoleState.recovering
      → db'.meta ≡ db.meta
      → Ended client r row db db'
  durable :
      IsDurable r.state
      → ¬ (r.state ≡ RoleState.recovering)
      → row.state ≡ r.state
      → db'.meta ≡ db.meta
      → Ended client r row db db'
  lost :
      ¬ (IsDurable r.state)
      → row.state ≡ RoleState.disconnected
      → db'.meta ≡ db.meta
      → Ended client r row db db'

-- The role keeps its work and its generation, and is not connected.
pub record Left (client : Client) (r : RoleRow) (db db' : Db) : Type 0 where
  pub row : RoleRow
  pub there : select (λ (x : RoleRow). x.role == client.role) db'.roles ≡ some row
  pub same_work : row.active_assignment_id ≡ r.active_assignment_id
  pub same_generation : row.generation ≡ r.generation
  pub gone : row.connected ≡ false
  pub idle : row.activity ≡ none
  pub ended : Ended client r row db db'

-- What the handover did to the workflow.
abbrev Handled : Client → RoleRow → Db → Db → Type 0
Handled client r db db' =
    ((is_handover client r ≡ true) × (db'.meta.workflow_state ≡ WorkflowState.uncertain))
    ⊎ ((is_handover client r ≡ false) × (db'.meta ≡ db.meta))

recovering-eq : (s : RoleState) → is_recovering s ≡ true → s ≡ RoleState.recovering
recovering-eq s h = ground arith

recovering-Ended :
    (client : Client) (r row : RoleRow) (db db' : Db)
    → r.state ≡ RoleState.recovering
    → row.state ≡ state_after client r
    → Handled client r db db'
    → Ended client r row db db'
recovering-Ended client r row db db' s e (inl (mine, doubted)) =
    handed_over s (ground (arith, s, mine)) (ground (arith, s, mine, e)) doubted
recovering-Ended client r row db db' s e (inr (other, same)) =
    stale s (λ g. absurd (ground (arith, s, other, g))) (ground (arith, s, other, e)) same

other-Ended :
    (client : Client) (r row : RoleRow) (db db' : Db) (state : RoleState)
    → r.state ≡ state
    → row.state ≡ state_after client r
    → Handled client r db db'
    → Ended client r row db db'
other-Ended client r row db db' RoleState.recovering s e h =
    recovering-Ended client r row db db' s e h
other-Ended client r row db db' RoleState.restarting s e (inr (other, same)) =
    durable (rw s tt) (λ f. cc) (ground (arith, s, e)) same
other-Ended client r row db db' RoleState.uncertain s e (inr (other, same)) =
    durable (rw s tt) (λ f. cc) (ground (arith, s, e)) same
other-Ended client r row db db' RoleState.idle s e (inr (other, same)) =
    lost (λ d. rw s at d) (ground (arith, s, e)) same
other-Ended client r row db db' RoleState.active s e (inr (other, same)) =
    lost (λ d. rw s at d) (ground (arith, s, e)) same
other-Ended client r row db db' RoleState.waiting s e (inr (other, same)) =
    lost (λ d. rw s at d) (ground (arith, s, e)) same
other-Ended client r row db db' RoleState.disconnected s e (inr (other, same)) =
    lost (λ d. rw s at d) (ground (arith, s, e)) same
other-Ended client r row db db' state s e (inl (mine, doubted)) =
    recovering-Ended client r row db db' (recovering-eq r.state (ground (arith, mine))) e
      (inl (mine, doubted))

leave-roles :
    (client : Client) (state : RoleState) (db : Db)
    → ((leave client state db).roles
        ≡ update (λ (x : RoleRow). x.role == client.role) (left state) db.roles)
      × ((leave client state db).meta ≡ db.meta)
unfolding record_event
leave-roles client state db = (refl, refl)

marked-meta :
    (client : Client) (db : Db) {n : ℕ} {db' : Db}
    → mark_handover_tx client.role none db ≡ ok (n, db')
    → (db'.roles
        ≡ update (λ (x : RoleRow). x.role == client.role) (role_in RoleState.uncertain) db.roles)
      × (db'.meta.workflow_state ≡ settled_state (is_paused db) WorkflowState.uncertain)
unfolding mark_handover_tx record_event set_workflow_state
marked-meta client db {n} {db'} h = (ground arith, ground arith)

uncertain_stays :
    (paused : Bool) → settled_state paused WorkflowState.uncertain ≡ WorkflowState.uncertain
uncertain_stays true = refl
uncertain_stays false = refl

handover-ok :
    (client : Client) (db : Db) {round : Option ℕ} {mid : Db}
    → handover_round client true db ≡ ok (round, mid)
    → (n : ℕ) × (mark_handover_tx client.role none db ≡ ok (n, mid))
handover-ok client db {round} {mid} h = elim (Result-cases (mark_handover_tx client.role none db)) [
  | inr (c, e) ↦ absurd (ground (arith, e))
  | inl ((n, m), e) ↦ let same : m ≡ mid = ground (arith, e) in (n, rw same at e)
]

-- What the handover, if it was one, leaves before the role is marked as disconnected.
record Before (client : Client) (r : RoleRow) (db mid : Db) : Type 0 where
  row : RoleRow
  there : select (λ (x : RoleRow). x.role == client.role) mid.roles ≡ some row
  same_work : row.active_assignment_id ≡ r.active_assignment_id
  same_generation : row.generation ≡ r.generation
  workflow : Handled client r db mid

handover-Before :
    (client : Client) (r : RoleRow) (db : Db) {round : Option ℕ} {mid : Db}
    → select (λ (x : RoleRow). x.role == client.role) db.roles ≡ some r
    → handover_round client (is_handover client r) db ≡ ok (round, mid)
    → Before client r db mid
handover-Before client r db {round} {mid} s h = elim (Bool-cases (is_handover client r)) [
  | inr other ↦
      let same : mid ≡ db = ground (arith, other) in
      rw same (record {
        row = r;
        there = s;
        same_work = refl;
        same_generation = refl;
        workflow = inr (other, refl);
      })
  | inl mine ↦
      let (n, e) = handover-ok client db {round = round} {mid = mid} (rw mine at h) in
      let marked = marked-meta client db {n = n} {db' = mid} e in
      record {
        row = role_in RoleState.uncertain r;
        there = rw marked.0 (select-update _ _ db.roles {x = r} (λ y. refl) s);
        same_work = refl;
        same_generation = refl;
        workflow = inl (mine, marked.1 ∙ uncertain_stays (is_paused db));
      }
]

-- A connection that is lost keeps the work and the generation of its role. A handover to this client
-- that was under way leaves the role and the workflow uncertain; otherwise the workflow is as it was,
-- and the role is disconnected unless it is restarting, recovering or uncertain.
pub disconnect_tx-Left :
    (client : Client) (r : RoleRow) (db : Db) {round : Option ℕ} {db' : Db}
    → select (λ (x : RoleRow). x.role == client.role) db.roles ≡ some r
    → disconnect_tx client db ≡ ok (round, db')
    → Left client r db db'
unfolding disconnect_tx role_row
disconnect_tx-Left client r db {round} {db'} s h =
    elim (Result-cases (handover_round client (is_handover client r) db)) [
      | inr (c, e) ↦ absurd (ground (arith, s, e))
      | inl ((n, mid), e) ↦
          let done : db' ≡ leave client (state_after client r) mid = ground (arith, s, e) in
          let before = handover-Before client r db {round = n} {mid = mid} s e in
          let marks = leave-roles client (state_after client r) mid in
          rw done (record {
            row = left (state_after client r) before.row;
            there =
                rw marks.0 (select-update _ _ mid.roles {x = before.row} (λ y. refl) before.there);
            same_work = before.same_work;
            same_generation = before.same_generation;
            gone = refl;
            idle = refl;
            ended =
                other-Ended client r (left (state_after client r) before.row) db _ r.state refl refl
                  (rw marks.1 before.workflow);
          })
    ]
