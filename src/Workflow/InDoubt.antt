-- ===== src/Workflow/InDoubt.antt =====
-- A delivery in doubt is not repeated (broker.py).
use pi_tmux_orchestrator.Prelude.{
  ◌≡◌, ◌⊎◌, refl, inl, inr, Bool, true, false, some, String_eq, arith, Bool-cases, eq_iff,
}
use pi_tmux_orchestrator.Prelude.Result.{Result, ok, err, Result-cases}
use pi_tmux_orchestrator.Prelude.Table.{All, All-written}
use pi_tmux_orchestrator.Store.Rows.{
  Db, Assignment, AssignmentState, RoleRow, RoleState, WorkflowState,
}
use pi_tmux_orchestrator.Store.Writes.{record_event, set_workflow_state, settled_state, is_paused}
use pi_tmux_orchestrator.Broker.State.{Broker, Client}
use pi_tmux_orchestrator.Broker.Transport.{◌>>=◌, transact, broadcast_workflow}
use pi_tmux_orchestrator.Attention.Rows.{set_role}
use pi_tmux_orchestrator.Roles.Contracts.{contracts_value, validate_assignment_kind}
use pi_tmux_orchestrator.Worker.Delivery.{role_in, in_state}
use pi_tmux_orchestrator.Workflow.Deliver.{Run}
use pi_tmux_orchestrator.Workflow.Recover.{
  unfinished, is_in_doubt, is_uncertain, doubt_assignment, doubt_workflow, doubt_tx,
  recover_in_doubt, recover_found, recover_role,
}

-- The workflow, every row of the role and the rows of the assignment are uncertain; no report changed.
pub record Doubted (client : Client) (a : Assignment) (db db' : Db) : Type 0 where
  pub workflow : db'.meta.workflow_state ≡ WorkflowState.uncertain
  pub roles : All (λ (r : RoleRow). r.role ≡ client.role → r.state ≡ RoleState.uncertain) db'.roles
  pub assignments :
      ((a.state ≡ AssignmentState.delivering)
        × All
            (λ (x : Assignment). x.id ≡ a.id → x.state ≡ AssignmentState.uncertain)
            db'.assignments)
      ⊎ ((a.state ≡ AssignmentState.uncertain) × (db'.assignments ≡ db.assignments))
  pub same_reports : db'.reports ≡ db.reports

-- How `recover_role` ends: an assignment that the role may have is doubted, and otherwise the code of
-- its refusal is raised.
abbrev pub DoubtOutcome :
    (check : Result (Unit {0})) → Client → Assignment → Db → Result (Unit {0}) → Db → Type 0
DoubtOutcome (ok u) client a db result db' = (result ≡ ok tt) × Doubted client a db db'
DoubtOutcome (err code) client a db result db' = (result ≡ err code) × (db' ≡ db)

always_uncertain :
    (paused : Bool) → settled_state paused WorkflowState.uncertain ≡ WorkflowState.uncertain
always_uncertain true = refl
always_uncertain false = refl

uncertain-eq : (s : WorkflowState) → is_uncertain s ≡ true → s ≡ WorkflowState.uncertain
uncertain-eq s h = ground arith

doubt_workflow-uncertain :
    (client : Client) (a : Assignment) (db : Db)
    → (doubt_workflow client a db).meta.workflow_state ≡ WorkflowState.uncertain
unfolding record_event set_workflow_state
doubt_workflow-uncertain client a db = elim (Bool-cases (is_uncertain db.meta.workflow_state)) [
  | inl doubted ↦ rw doubted (uncertain-eq db.meta.workflow_state doubted)
  | inr sure ↦ rw sure (always_uncertain (is_paused db))
]

doubt_workflow_rest :
    (client : Client) (a : Assignment) (db : Db)
    → ((doubt_workflow client a db).roles ≡ db.roles)
      × ((doubt_workflow client a db).assignments ≡ db.assignments)
      × ((doubt_workflow client a db).reports ≡ db.reports)
unfolding record_event set_workflow_state
doubt_workflow_rest client a db = (ground arith, ground arith, ground arith)

doubt_assignment_reports :
    (client : Client) (a : Assignment) (db : Db)
    → (doubt_assignment client a db).reports ≡ db.reports
unfolding record_event
doubt_assignment_reports client a db = ground arith

abbrev InDoubt : Assignment → Type 0
InDoubt a = (a.state ≡ AssignmentState.delivering) ⊎ (a.state ≡ AssignmentState.uncertain)

doubt_assignment-cases :
    (client : Client) (a : Assignment) (db : Db)
    → InDoubt a
    → ((a.state ≡ AssignmentState.delivering)
        × All
            (λ (x : Assignment). x.id ≡ a.id → x.state ≡ AssignmentState.uncertain)
            (doubt_assignment client a db).assignments)
      ⊎ ((a.state ≡ AssignmentState.uncertain)
          × ((doubt_assignment client a db).assignments ≡ db.assignments))
unfolding record_event
doubt_assignment-cases client a db (inl sent) = inl (
  sent,
  rw sent (
      All-written _ _ (in_state AssignmentState.uncertain) db.assignments (λ x t e. refl)
        (λ x t e. absurd (ground (arith, eq_iff x.id a.id)))),
)
doubt_assignment-cases client a db (inr doubted) = inr (doubted, rw doubted refl)

doubt_tx-Doubted :
    (client : Client) (a : Assignment) (db : Db)
    → InDoubt a
    → Doubted client a db (
        doubt_workflow client a
          (set_role client.role (role_in RoleState.uncertain) (doubt_assignment client a db)))
doubt_tx-Doubted client a db h =
    let mid = doubt_assignment client a db in
    let marked = set_role client.role (role_in RoleState.uncertain) mid in
    let rest = doubt_workflow_rest client a marked in
    record {
      workflow = doubt_workflow-uncertain client a marked;
      roles = rw rest.0 (
          All-written _ _ (role_in RoleState.uncertain) mid.roles (λ r t e. refl)
            (λ r t e. absurd (ground (arith, eq_iff r.role client.role))));
      assignments = rw rest.1 (doubt_assignment-cases client a db h);
      same_reports = rw rest.2 (doubt_assignment_reports client a db);
    }

is_in_doubt-eq : (a : Assignment) → InDoubt a → is_in_doubt a.state ≡ true
is_in_doubt-eq a (inl e) = rw e refl
is_in_doubt-eq a (inr e) = rw e refl

module _ (run : Run) (capsule_check : Result (Unit {0})) (client : Client) where
  -- When a worker connects whose last unfinished assignment was sent and not acknowledged, or is
  -- uncertain, `recover_role` sends no frame, handover or not, so that the assignment is not delivered
  -- twice. If the role may not have work of the assignment's kind, it raises the refusal and leaves
  -- the database as it was. Otherwise it returns, the workflow and the role are uncertain, so is the
  -- assignment, and no report changes.
  pub recover_role-Doubted :
      (handover : Bool) (b : Broker) (a : Assignment)
      → unfinished client.role b.db ≡ some a
      → (a.state ≡ AssignmentState.delivering) ⊎ (a.state ≡ AssignmentState.uncertain)
      → ((recover_role run capsule_check client handover b).1.sent ≡ b.sent)
        × DoubtOutcome
            (validate_assignment_kind client.role a.kind (contracts_value run.custom_contracts))
            client
            a
            b.db
            (recover_role run capsule_check client handover b).0
            (recover_role run capsule_check client handover b).1.db
  unfolding recover_role recover_found ◌>>=◌ recover_in_doubt doubt_tx transact broadcast_workflow
  recover_role-Doubted handover b a found doubt =
      let known = is_in_doubt-eq a doubt in
      elim (Result-cases
        (validate_assignment_kind client.role a.kind (contracts_value run.custom_contracts))) [
          | inl (u, valid) ↦
              rw (found, valid, known) (refl, (refl, doubt_tx-Doubted client a b.db doubt))
          | inr (code, refused) ↦ rw (found, refused) (refl, (refl, refl))
        ]
