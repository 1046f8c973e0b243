-- ===== src/Attention/Turns.antt =====
-- Provider turns: authorized only after the commit, and never while the operator is asked for.
use pi_tmux_orchestrator.Prelude.{
  ◌≡◌, refl, Bool, true, false, not, ◌&&◌, arith, inl, inr, Bool-cases, String_eq, eq_iff,
}
use pi_tmux_orchestrator.Prelude.Result.{ok}
use pi_tmux_orchestrator.Prelude.Table.{insert, All, All-written}
use pi_tmux_orchestrator.Store.Rows.{Db, Assignment, WorkflowState, RoleRow, RoleState}
use pi_tmux_orchestrator.Store.Writes.{record_event, set_workflow_state, settled_state, is_paused}
use pi_tmux_orchestrator.Admission.Policy.{Limits}
use pi_tmux_orchestrator.Admission.Ledger.{Request, reserve_provider_turn, admission_row}
use pi_tmux_orchestrator.Admission.Ceilings.{Outcome, replayed, full, fresh, reserve-Outcome}
use pi_tmux_orchestrator.Broker.State.{Client}
use pi_tmux_orchestrator.Attention.Rows.{
  attention_waiting, attention_state, is_attention, set_assignment, set_role, waiting_role,
}
use pi_tmux_orchestrator.Attention.Handlers.{Signal, turn_decision, provider_turn_tx, in_attention}
use pi_tmux_orchestrator.Attention.Inversion.{Fenced, provider_turn_tx-eq}

-- The workflow does not run on: it needs attention, or it had ended or become uncertain.
abbrev pub IsHalted : WorkflowState → Type 0
IsHalted WorkflowState.needs_attention = Unit
IsHalted WorkflowState.uncertain = Unit
IsHalted WorkflowState.ready = Unit
IsHalted _ = ⊥

-- The receipt of a granted turn.
abbrev pub turn_request : Client → Signal → Assignment → Request
turn_request client m a = record {
  request_id = m.id;
  role = client.role;
  assignment_id = a.id;
  generation = client.generation;
  resume_id = m.resume_id;
}

needs_stays :
    (paused : Bool)
    → settled_state paused WorkflowState.needs_attention ≡ WorkflowState.needs_attention
needs_stays true = refl
needs_stays false = refl

IsHalted-attention_state :
    (s : WorkflowState) (db : Db)
    → db.meta.workflow_state ≡ s
    → IsHalted (attention_state s db).meta.workflow_state
unfolding set_workflow_state
IsHalted-attention_state WorkflowState.uncertain db e = rw e tt
IsHalted-attention_state WorkflowState.ready db e = rw e tt
IsHalted-attention_state _ db e = rw (needs_stays (is_paused db)) tt

-- What an assignment looks like once the operator is asked: every row of its role waits, every row of
-- the assignment has lost its authority to resume, and the workflow does not run on.
pub record IsParked (client : Client) (a : Assignment) (db : Db) : Type 0 where
  pub halted : IsHalted db.meta.workflow_state
  pub waits : All (λ (r : RoleRow). r.role ≡ client.role → r.state ≡ RoleState.waiting) db.roles
  pub unauthorized :
      All (λ (x : Assignment). x.id ≡ a.id → x.resume_authorized ≡ false) db.assignments

attention_state_rest :
    (s : WorkflowState) (db : Db)
    → ((attention_state s db).roles ≡ db.roles)
      × ((attention_state s db).assignments ≡ db.assignments)
unfolding set_workflow_state
attention_state_rest s db = (ground arith, ground arith)

-- `_attention_waiting` parks the assignment, from any state of the run.
pub attention_waiting-IsParked :
    (client : Client) (a : Assignment) (db : Db) → IsParked client a (attention_waiting client a db)
unfolding attention_waiting record_event
attention_waiting-IsParked client a db = record {
  halted = IsHalted-attention_state db.meta.workflow_state parked refl;
  waits = rw (attention_state_rest db.meta.workflow_state parked).0 (
      All-written _ _ waiting_role db.roles (λ r t e. refl)
        (λ r t e. absurd (ground (arith, eq_iff r.role client.role))));
  unauthorized = rw (attention_state_rest db.meta.workflow_state parked).1 (
      All-written _ _ _ db.assignments (λ x t e. refl)
        (λ x t e. absurd (ground (arith, eq_iff x.id a.id))));
}
  where
    parked : Db
    parked =
        set_role client.role waiting_role
          (set_assignment a.id (λ (x : Assignment). record x { resume_authorized = false }) db)

granted-Outcome :
    (limits : Limits) (r : Request) (db : Db) {db' : Db}
    → Outcome limits r db true db'
    → db'.admissions ≡ insert (admission_row r true) db.admissions
granted-Outcome limits r db (replayed row s i g e) = cc
granted-Outcome limits r db (full s l g e) = cc
granted-Outcome limits r db (fresh s l g e) = rw e refl

granted_recorded :
    (r : Request) (db : Db) {db' : Db}
    → reserve_provider_turn r db ≡ ok (true, db')
    → db'.admissions ≡ insert (admission_row r true) db.admissions
granted_recorded r db {db'} h =
    let (limits, p, enabled, o) = reserve-Outcome r db {granted = true} {db' = db'} h in
    granted-Outcome limits r db o

granted_decision :
    (client : Client) (m : Signal) (a : Assignment) (db : Db) {db' : Db}
    → turn_decision client m a db ≡ ok (true, db')
    → ((is_attention a.report_attempt && not a.resume_authorized) ≡ false)
      × (db'.admissions ≡ insert (admission_row (turn_request client m a) true) db.admissions)
granted_decision client m a db {db'} h =
    elim (Bool-cases (is_attention a.report_attempt && not a.resume_authorized)) [
      | inl waits ↦ absurd (ground arith)
      | inr asks ↦ (asks, granted_recorded (turn_request client m a) db (rw asks at h))
    ]

-- A provider turn that the transaction grants is the client's own open assignment of this generation,
-- is not waiting for the operator, and has its receipt in the committed ledger, before any reply.
pub provider_turn_granted :
    (client : Client) (m : Signal) (db : Db) {a : Assignment} {db' : Db}
    → provider_turn_tx client m db ≡ ok ((a, true), db')
    → Fenced client m db a
      × ((is_attention a.report_attempt && not a.resume_authorized) ≡ false)
      × (db'.admissions ≡ insert (admission_row (turn_request client m a) true) db.admissions)
unfolding record_event
provider_turn_granted client m db {a} {db'} h =
    let (decided, fence, d, done) = provider_turn_tx-eq client m db {db' = db'} h in
    let known = granted_decision client m a db {db' = decided} d in
    (fence, known.0, rw done known.1)

-- A provider turn that the transaction denies parks the assignment.
pub provider_turn_denied :
    (client : Client) (m : Signal) (db : Db) {a : Assignment} {db' : Db}
    → provider_turn_tx client m db ≡ ok ((a, false), db')
    → IsParked client a db'
unfolding record_event
provider_turn_denied client m db {a} {db'} h =
    let (decided, fence, d, done) = provider_turn_tx-eq client m db {db' = db'} h in
    let parked =
      attention_waiting-IsParked client a (set_assignment a.id (in_attention "blocked") decided) in
    rw done
      (record { halted = parked.halted; waits = parked.waits; unauthorized = parked.unauthorized })
