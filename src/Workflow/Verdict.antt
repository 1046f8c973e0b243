-- ===== src/Workflow/Verdict.antt =====
-- Which reports make the workflow ready (broker_workflow.py).
use pi_tmux_orchestrator.Prelude.{
  ℕ, String, ◌≡◌, ◌≢◌, ◌⊎◌, inl, inr, refl, ap, ◌∙◌, Bool, true, false, ◌&&◌, some, none, arith,
  ◌==◌, String_eq, Option_eq, ℕ_eq, if◌then◌else◌, Bool-cases, ltb, is_some,
}
use pi_tmux_orchestrator.Prelude.Result.{Result, ok, err, Result-cases}
use pi_tmux_orchestrator.Store.Rows.{Db, Kind, Kind_eq, WorkflowState}
use pi_tmux_orchestrator.Store.Writes
use pi_tmux_orchestrator.Store.Writes.{
  bind-eq-ok, record_event, set_workflow_state, set_round, is_paused, settled_state,
}
use pi_tmux_orchestrator.Broker.State.{Broker}
use pi_tmux_orchestrator.Broker.Transport.{◌>>=◌, transact, broadcast_workflow}
use pi_tmux_orchestrator.Broker.Rules.{Post}
use pi_tmux_orchestrator.Continuation.Policy.{repair_limit_reached}
use pi_tmux_orchestrator.Admission.Ledger.{Status, admission_status}
use pi_tmux_orchestrator.Protocol.Body.{Body}
use pi_tmux_orchestrator.Workflow.Deliver.{Run}
use pi_tmux_orchestrator.Workflow.Assign.{
  assign_tx, pause_repair, add_assignment, clear_pending, is_refused,
}
use pi_tmux_orchestrator.Workflow.Untouched.{Of}
use pi_tmux_orchestrator.Workflow.Route.{
  route_report, is_approval, is_custom, approve_tx, approved, route_approval,
}
use pi_tmux_orchestrator.Workflow.Routing.{Respected, Keeps-route_report}

-- An assignment that commits is paused by the repair limit, or added.
pub assign_tx-cases :
    (role : String) (kind : Kind) (n : ℕ) (id delivery_id : String) (db : Db) (paused : Bool)
    (db' : Db)
    → assign_tx role kind n id delivery_id db ≡ ok (paused, db')
    → (db' ≡ pause_repair role n db) ⊎ (db' ≡ add_assignment role kind n id delivery_id db)
unfolding assign_tx
assign_tx-cases role kind n id delivery_id db paused db' h =
    elim (Result-cases (repair_limit_reached role kind n db)) [
      | inr (c, e) ↦ absurd (ground (arith, e))
      | inl (true, e) ↦ inl (ground (arith, e))
      | inl (false, e) ↦ elim (Bool-cases (is_refused role id delivery_id db)) [
        | inl refused ↦ absurd (ground (arith, e, refused))
        | inr fresh ↦ inr (ground (arith, e, fresh))
      ]
    ]

abbrev pub NotReady : Db → Type 0
NotReady db = db.meta.workflow_state ≢ WorkflowState.ready

not_ready_unless_set :
    (paused : Bool) → settled_state paused WorkflowState.active ≢ WorkflowState.ready
not_ready_unless_set true h = cc
not_ready_unless_set false h = cc

attention_not_ready :
    (paused : Bool) → settled_state paused WorkflowState.needs_attention ≢ WorkflowState.ready
attention_not_ready true h = cc
attention_not_ready false h = cc

NotReady-pause : (role : String) (n : ℕ) (db : Db) → NotReady (pause_repair role n db)
unfolding record_event set_workflow_state
NotReady-pause role n db = attention_not_ready (is_paused db)

NotReady-clear :
    (role : String) (kind : Kind) (n : ℕ) (db : Db)
    → NotReady db
    → NotReady (clear_pending role kind n db)
unfolding set_workflow_state
NotReady-clear role kind n db h = cleared (
    role == "implementer"
    && kind == Kind.implementation
    && ltb 1 n
    && is_some db.meta.pending_repair_round)
  where
    cleared :
        (b : Bool)
        → NotReady (
            if b
            then set_workflow_state WorkflowState.active
                (record db { meta = record db.meta { pending_repair_round = none } })
            else db)
    cleared true = not_ready_unless_set (is_paused db)
    cleared false = h

NotReady-add :
    (role : String) (kind : Kind) (n : ℕ) (id delivery_id : String) (db : Db)
    → NotReady db
    → NotReady (add_assignment role kind n id delivery_id db)
unfolding record_event
NotReady-add role kind n id delivery_id db h = NotReady-clear role kind n _ h

NotReady-Respected : Respected NotReady
unfolding set_workflow_state set_round
NotReady-Respected = record {
  events = λ db e n h. h;
  activations = λ db rows h. h;
  assigned = λ role kind n id delivery_id db paused db' e h.
      elim (assign_tx-cases role kind n id delivery_id db paused db' e) [
        | inl done ↦ rw done (NotReady-pause role n db)
        | inr done ↦ rw done (NotReady-add role kind n id delivery_id db h)
      ];
  advanced = λ db n run h. not_ready_unless_set (is_paused db);
}

pub Post-Of :
    (P : Db → Type 0) {A : Type 0} (r : Result A) (b : Broker)
    → Post (λ _. Of P) (Of P) r b
    → P b.db
Post-Of P (ok a) b h = h
Post-Of P (err c) b h = h

-- Only an approval makes the workflow ready: routing any other report, whether it returns or raises and
-- whichever writes fail, leaves a workflow that is not ready so.
pub route_report-NotReady :
    (run : Run) (role : String) (n : ℕ) (report : Body) (b : Broker)
    → is_approval run role report ≡ false
    → NotReady b.db
    → NotReady (route_report run role n report b).1.db
route_report-NotReady run role n report b other h =
    Post-Of NotReady (route_report run role n report b).0 (route_report run role n report b).1 (
      (Keeps-route_report NotReady NotReady-Respected run role n report
          λ e. absurd (ground (arith, e, other))).at
        b h)

paused-eq :
    (db : Db) (status : Status) → admission_status db ≡ ok status → status.paused ≡ is_paused db
unfolding admission_status
paused-eq db status e = ground arith

approve-eq :
    (run : Run) (n : ℕ) (db : Db) (status : Status)
    → admission_status db ≡ ok status
    → approve_tx run n db ≡ ok (is_paused db, approved run n (is_paused db) db)
unfolding approve_tx
approve-eq run n db status e = rw (e, approve_tx, paused-eq db status e) refl

transacted-eq :
    {A : Type 0} (tx : Writes.Tx A) (b : Broker) (a : A) (db : Db)
    → tx b.db ≡ ok (a, db)
    → transact tx b ≡ (ok a, record b { db = db })
unfolding transact
transacted-eq tx b a db e = rw (e, transact) refl

route-eq :
    (run : Run) (n : ℕ) (report : Body) (b : Broker)
    → is_custom run "reviewer" ≡ false
    → report.verdict ≡ some "approved"
    → route_report run "reviewer" n report b ≡ route_approval run n b
unfolding route_report
route-eq run n report b custom verdict = rw (custom, verdict, route_report) refl

abbrev ended : Bool → WorkflowState
ended paused = if paused then WorkflowState.needs_attention else WorkflowState.ready

ended-settled :
    (run : Run) (n : ℕ) (db : Db) (paused : Bool)
    → is_paused db ≡ paused
    → (approved run n paused db).meta.workflow_state ≡ ended paused
unfolding record_event set_workflow_state
ended-settled run n db true e = rw e refl
ended-settled run n db false e = rw e refl

route_approval-eq :
    (run : Run) (n : ℕ) (b : Broker) (status : Status)
    → admission_status b.db ≡ ok status
    → ((route_approval run n b).0 ≡ ok tt)
      × ((route_approval run n b).1.db ≡ approved run n (is_paused b.db) b.db)
      × ((route_approval run n b).1.sent ≡ b.sent)
unfolding route_approval ◌>>=◌ broadcast_workflow
route_approval-eq run n b status e =
    let done =
      transacted-eq (approve_tx run n) b (is_paused b.db) (approved run n (is_paused b.db) b.db)
        (approve-eq run n b.db status e) in
    rw (done, route_approval) (refl, refl, refl)

-- An approval always ends the workflow, if the admission status can be read and "reviewer" is not the
-- name of a custom role: the route returns and sends no frame, and leaves the workflow ready, or in
-- need of attention while the provider-call allowance is used up.
pub route_report-approved :
    (run : Run) (n : ℕ) (report : Body) (b : Broker) (status : Status)
    → is_custom run "reviewer" ≡ false
    → report.verdict ≡ some "approved"
    → admission_status b.db ≡ ok status
    → ((route_report run "reviewer" n report b).0 ≡ ok tt)
      × ((route_report run "reviewer" n report b).1.db.meta.workflow_state
          ≡ (if is_paused b.db then WorkflowState.needs_attention else WorkflowState.ready))
      × ((route_report run "reviewer" n report b).1.sent ≡ b.sent)
route_report-approved run n report b status custom verdict e =
    let (returned, db, sent) = route_approval-eq run n b status e in
    rw (route-eq run n report b custom verdict)
      (returned, ap (λ d. d.meta.workflow_state) db ∙ ended-settled run n b.db _ refl, sent)
