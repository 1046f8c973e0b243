-- ===== src/Attention/Transactions.antt =====
-- The transactions of frames that are not about attention leave the reminders alone (broker.py).
use pi_tmux_orchestrator.Prelude.{
  ℕ, String, ◌≡◌, refl, Bool, true, false, not, Option, none, some, List, ◌==◌, arith, inl, inr,
  String_eq, Option_eq, if◌then◌else◌, Bool-cases,
}
use pi_tmux_orchestrator.Prelude.Result.{Result, ok, err, conflict}
use pi_tmux_orchestrator.Prelude.Json.{Fields}
use pi_tmux_orchestrator.Prelude.Table.{All-update, select}
use pi_tmux_orchestrator.Store.Rows.{
  Db, Assignment, AssignmentState, RoleRow, RoleState, WorkflowState,
}
use pi_tmux_orchestrator.Store.Writes
use pi_tmux_orchestrator.Store.Writes.{bind-eq-ok, record_event, set_workflow_state}
use pi_tmux_orchestrator.Broker.State.{Client, Frame}
use pi_tmux_orchestrator.Attention.OneShot.{Allowed, IsOneShot, IsOneShot-set}
use pi_tmux_orchestrator.Budget.Guardrail.{GuardrailMessage, guardrail_tx}
use pi_tmux_orchestrator.Budget.Crossed.{Recorded, repeated, first, guardrail_tx-Recorded}
use pi_tmux_orchestrator.Worker.Progress.{
  Progress, role_row, progress_db, progress_event, progress_tx, store,
}
use pi_tmux_orchestrator.Worker.Delivery.{
  Ack, active_id, is_delivered, accept, doubt, recovered, settle_found, ack_tx, in_state,
  with_boundary,
}
use pi_tmux_orchestrator.Worker.Lifecycle.{
  Lifecycle, boundary, enter, retained_or, lifecycle_tx, next_workflow, next_for, moves_workflow,
  transition_tx, is_truthy,
}
use pi_tmux_orchestrator.Workflow.Routing.{KeepsTx}

module _ (sent : List (String × Frame)) where
  abbrev Shot : Db → Type 0
  Shot db = IsOneShot db sent

  bind :
      {A B : Type 0} (m : Writes.Tx A) (f : A → Writes.Tx B)
      → KeepsTx Shot m
      → ((a : A) → KeepsTx Shot (f a))
      → KeepsTx Shot (Writes.◌>>=◌ m f)
  bind m f k l db b db' h p =
      let (a, mid, e, h1) = bind-eq-ok m f db h in l a mid b db' h1 (k db a mid e p)

  pure : {A : Type 0} (x : A) → KeepsTx Shot (Writes.pure x)
  pure x db a db' h p = let same : db' ≡ db = ground arith in rw same p

  lifted : {A : Type 0} (r : Result A) → KeepsTx Shot (λ db. Writes.lift r db)
  lifted (ok x) = pure x
  lifted (err c) = λ db a db' h p. cc

  modified :
      (write : Db → Db)
      → ((db : Db) → Shot db → Shot (write db))
      → KeepsTx Shot (Writes.modify write)
  modified write k db u db' h p = let done : db' ≡ write db = ground arith in rw done (k db p)

  row : (role : String) → KeepsTx Shot (role_row role)
  unfolding role_row
  row role db r db' h p = let same : db' ≡ db = ground arith in rw same p

  stored :
      (usage : Option Fields) (r : RoleRow) (write : Db → Db)
      → ((db : Db) → Shot db → Shot (write db))
      → KeepsTx Shot (store usage r write)
  stored usage r write k db u db' h p = let done : db' ≡ write db = ground arith in rw done (k db p)

  same_rows : (a b : Db) → b.assignments ≡ a.assignments → Shot a → Shot b
  same_rows a b e h = rw e h

  progressed-IsOneShot :
      (client : Client) (m : Progress) (usage : Option Fields) (db : Db)
      → Shot db
      → Shot (progress_db client m usage db)
  progressed-IsOneShot client m usage db h =
      All-update (Allowed sent) _ _ db.assignments (λ x t p. p) h

  progress-when :
      (client : Client) (m : Progress) (again : Bool)
      → KeepsTx Shot (Writes.when again (Writes.modify (progress_event client m)))
  unfolding record_event
  progress-when client m true = modified _ λ db h. h
  progress-when client m false = pure tt

  progress-if :
      (client : Client) (m : Progress) (usage : Option Fields) (r : RoleRow) (other : Bool)
      → KeepsTx Shot (
          if other
          then Writes.raise conflict
          else Writes.◌>>◌ (store usage r (progress_db client m usage)) (
              Writes.when
                (not (r.activity == some m.phase))
                (Writes.modify (progress_event client m))))
  progress-if client m usage r true = λ db a db' h p. cc
  progress-if client m usage r false =
      bind _ _ (stored usage r _ (progressed-IsOneShot client m usage))
        λ u. progress-when client m (not (r.activity == some m.phase))

  pub progress_tx-IsOneShot :
      (client : Client) (m : Progress) (usage : Option Fields)
      → KeepsTx Shot (progress_tx client m usage)
  unfolding progress_tx
  progress_tx-IsOneShot client m usage =
      bind _ _ (row client.role)
        λ r. progress-if client m usage r (not (r.active_assignment_id == some m.assignment_id))

  recorded-IsOneShot :
      (client : Client) (m : GuardrailMessage) {db db' : Db} {duplicate : Bool}
      → Recorded client m db duplicate db'
      → Shot db
      → Shot db'
  recorded-IsOneShot client m (repeated g there) h = h
  recorded-IsOneShot client m (first new r) h = rw r.same_assignments h

  pub guardrail_tx-IsOneShot :
      (client : Client) (m : GuardrailMessage) → KeepsTx Shot (guardrail_tx client m)
  guardrail_tx-IsOneShot client m db a db' e h =
      recorded-IsOneShot client m
        (guardrail_tx-Recorded client m db {duplicate = a} {db' = db'} e).1 h

  accept-IsOneShot :
      (client : Client) (m : Ack) (a : Assignment) (db : Db) → Shot db → Shot (accept client m a db)
  unfolding record_event
  accept-IsOneShot client m a db h =
      let taken =
        IsOneShot-set sent a.id (in_state AssignmentState.accepted) db (λ x. (refl, omega arith))
          h in
      elim (Bool-cases a.boundary_effective) [
        | inl effective ↦ rw effective taken
        | inr new ↦ rw new (All-update (Allowed sent) _ with_boundary _ (λ x t p. p) taken)
      ]

  recovered-IsOneShot :
      (client : Client) (a : Assignment) (r : RoleRow) (db : Db)
      → Shot db
      → Shot (recovered client a r db)
  unfolding record_event
  recovered-IsOneShot client a r db h =
      let same : (recovered client a r db).assignments ≡ db.assignments = ground arith in
      same_rows db (recovered client a r db) same h

  doubt-IsOneShot :
      (client : Client) (m : Ack) (a : Assignment) (db : Db) → Shot db → Shot (doubt client m a db)
  unfolding record_event set_workflow_state
  doubt-IsOneShot client m a db h =
      IsOneShot-set sent a.id (in_state AssignmentState.uncertain) db (λ x. (refl, omega arith)) h

  settle-IsOneShot :
      (client : Client) (m : Ack) (accepted : Bool) (found : Option Assignment)
      → KeepsTx Shot (settle_found client m accepted found)
  settle-IsOneShot client m accepted none = pure none
  settle-IsOneShot client m true (some a) =
      bind _ _ (modified (accept client m a) (accept-IsOneShot client m a)) λ u.
        bind _ _ (row client.role) λ r.
          bind _ _ (modified (recovered client a r) (recovered-IsOneShot client a r)) λ v. pure none
  settle-IsOneShot client m false (some a) =
      bind _ _ (modified (doubt client m a) (doubt-IsOneShot client m a)) λ u. pure (some a.round)

  pub ack_tx-IsOneShot :
      (client : Client) (m : Ack) (accepted : Bool) → KeepsTx Shot (ack_tx client m accepted)
  unfolding ack_tx
  ack_tx-IsOneShot client m accepted db u db' e h =
      settle-IsOneShot client m accepted
        (select (is_delivered client m (active_id client.role db)) db.assignments) db u db' e h

  enter-IsOneShot :
      (client : Client) (r : RoleRow) (usage : Option Fields) (state : Option RoleState)
      → KeepsTx Shot (enter client r usage state)
  unfolding record_event
  enter-IsOneShot client r usage none = pure none
  enter-IsOneShot client r usage (some state) =
      bind _ _ (stored usage r _ λ db h. h) λ u. pure (some (retained_or r.state state))

  pub lifecycle_tx-IsOneShot :
      (client : Client) (m : Lifecycle) (state : RoleState) (usage : Option Fields)
      → KeepsTx Shot (lifecycle_tx client m state usage)
  unfolding lifecycle_tx
  lifecycle_tx-IsOneShot client m state usage = bind _ _ (row client.role) λ r.
      bind _ _ (λ db a db' e h. lifted (boundary r state m.assignment client.role db) db a db' e h)
        (enter-IsOneShot client r usage)

  next_workflow-rows :
      (state : RoleState) (s : WorkflowState) (client : Client) (id : Option String) (db : Db)
      {moved : Option (WorkflowState × ℕ)} {db' : Db}
      → next_workflow state s client id db ≡ ok (moved, db')
      → db'.assignments ≡ db.assignments
  unfolding record_event set_workflow_state
  next_workflow-rows state s client id db {moved} {db'} e = ground arith

  next_for-IsOneShot :
      (state : RoleState) (client : Client) (r : RoleRow) → KeepsTx Shot (next_for state client r)
  next_for-IsOneShot state client r db moved db' e h =
      elim (Bool-cases (is_truthy r.active_assignment_id)) [
        | inr idle ↦ let same : db' ≡ db = ground (arith, idle) in rw same h
        | inl works ↦
            same_rows db db'
              (next_workflow-rows state db.meta.workflow_state client r.active_assignment_id db
                {moved = moved} {db' = db'} (ground (arith, works)))
              h
      ]

  transition-if :
      (client : Client) (state : RoleState) (moves : Bool)
      → KeepsTx Shot (
          if moves
          then Writes.◌>>=◌ (role_row client.role) (next_for state client)
          else Writes.pure none)
  transition-if client state true = bind _ _ (row client.role) (next_for-IsOneShot state client)
  transition-if client state false = pure none

  pub transition_tx-IsOneShot :
      (client : Client) (state : RoleState) → KeepsTx Shot (transition_tx client state)
  unfolding transition_tx
  transition_tx-IsOneShot client state = transition-if client state (moves_workflow state)
