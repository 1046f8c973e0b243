-- ===== src/Workflow/Uncertain.antt =====
-- The ways in which the acceptance of a report ends (broker_workflow.py).
use pi_tmux_orchestrator.Prelude.{
  ◌≡◌, inl, inr, refl, Bool, true, false, String, some, List, [], ◌∷◌, arith, String_eq, Option,
  not, ◌&&◌, ◌==◌,
}
use pi_tmux_orchestrator.Prelude.Result.{
  Result, ok, err, ErrorCode, broker_uncertain, connection_lost, internal_error, Result-cases,
}
use pi_tmux_orchestrator.Prelude.Table.{select, exists}
use pi_tmux_orchestrator.Store.Rows.{Db, Assignment, WorkflowState, Report}
use pi_tmux_orchestrator.Store.Writes.{record_event, set_workflow_state, settled_state, is_paused}
use pi_tmux_orchestrator.Broker.State.{Broker, Client}
use pi_tmux_orchestrator.Broker.Transport.{
  ◌>>=◌, continue, transact, catch, recover, send, reply, broadcast, broadcast_workflow,
}
use pi_tmux_orchestrator.Protocol.Body.{Body}
use pi_tmux_orchestrator.Workflow.Deliver.{Run, draw}
use pi_tmux_orchestrator.Workflow.Verdict.{Post-Of}
use pi_tmux_orchestrator.Workflow.Route.{route_report}
use pi_tmux_orchestrator.Workflow.Known.{Known, Known-Lasting, accepted-Known}
use pi_tmux_orchestrator.Workflow.Accepting.{Keeps-route_accepted}
use pi_tmux_orchestrator.Workflow.Accept.{
  ReportMessage, ReportUsage, is_own, accept_tx, remember_report, route_accepted, routing_failed,
  accept_report, is_storable_report,
}

-- The numbers of the report fit their columns, and its id is new.
abbrev pub can_store : Option ReportUsage → String → Db → Bool
can_store usage id db =
    is_storable_report usage && not (exists (λ (x : Report). x.id == id) db.reports)

-- How the acceptance of a report about `a` ends.
pub data Ended (client : Client) (a : Assignment) (storable : Bool) (before : Db) (after : Db)
    : Result (Unit {0}) → Type 0 where
  acknowledged :
      Known client a.id a.kind after
      → storable ≡ true
      → Ended client a storable before after (ok tt)
  unacknowledged :
      Known client a.id a.kind after
      → storable ≡ true
      → Ended client a storable before after (err connection_lost)
  uncertain :
      Known client a.id a.kind after
      → after.meta.workflow_state ≡ WorkflowState.uncertain
      → storable ≡ true
      → Ended client a storable before after (err broker_uncertain)
  refused :
      after ≡ before → storable ≡ false → Ended client a storable before after (err internal_error)

always_uncertain :
    (paused : Bool) → settled_state paused WorkflowState.uncertain ≡ WorkflowState.uncertain
always_uncertain true = refl
always_uncertain false = refl

-- The routing returned, or was given up.
abbrev Routed : Result (Unit {0}) → Db → Type 0
Routed (ok u) db = Unit
Routed (err code) db =
    (code ≡ broker_uncertain) × (db.meta.workflow_state ≡ WorkflowState.uncertain)

module _ (client : Client) (a : Assignment) where
  routing_failed-Routed :
      (b : Broker) → Routed (routing_failed client a b).0 (routing_failed client a b).1.db
  unfolding routing_failed ◌>>=◌ transact broadcast_workflow record_event set_workflow_state
  routing_failed-Routed b = (refl, always_uncertain (is_paused b.db))

  recovered-Routed :
      (r : Result (Unit {0})) (b : Broker)
      → Routed
          (recover (routing_failed client a) r b).0
          (recover (routing_failed client a) r b).1.db
  recovered-Routed (ok u) b = tt
  recovered-Routed (err c) b = routing_failed-Routed b

  route_accepted-Routed :
      (run : Run) (body : Body) (b : Broker)
      → Routed (route_accepted run client a body b).0 (route_accepted run client a body b).1.db
  unfolding route_accepted catch
  route_accepted-Routed run body b =
      recovered-Routed (route_report run client.role a.round body b).0
        (route_report run client.role a.round body b).1

  answered-Ended :
      {storable : Bool} (before : Db) (id status : String) (b : Broker)
      → storable ≡ true
      → Known client a.id a.kind b.db
      → Ended client a storable before
          (reply client id true status b).1.db
          (reply client id true status b).0
  unfolding send
  answered-Ended {storable = storable} before id status b t h = written b.link refl
    where
      written :
          (link : List Bool)
          → b.link ≡ link
          → Ended client a storable before
              (reply client id true status b).1.db
              (reply client id true status b).0
      written [] e = rw (e, send) (acknowledged h t)
      written (true ∷ rest) e = rw (e, send) (acknowledged h t)
      written (false ∷ rest) e = rw (e, send) (unacknowledged h t)

  routed-Ended :
      {storable : Bool} (before : Db) (id : String) (r : Result (Unit {0})) (b : Broker)
      → storable ≡ true
      → Routed r b.db
      → Known client a.id a.kind b.db
      → Ended client a storable before
          (continue (λ _. reply client id true "accepted") r b).1.db
          (continue (λ _. reply client id true "accepted") r b).0
  routed-Ended before id (ok u) b t c h = answered-Ended before id "accepted" b t h
  routed-Ended before id (err code) b t (same, doubted) h = rw same (uncertain h doubted t)

  accept_tx-refused :
      (body : Body) (usage : Option ReportUsage) (id : String) (db : Db) {code : ErrorCode}
      → accept_tx client a body usage id db ≡ err code
      → (code ≡ internal_error) × (can_store usage id db ≡ false)
  unfolding accept_tx
  accept_tx-refused body usage id db h = (ground arith, ground arith)

  accept_tx-stored :
      (body : Body) (usage : Option ReportUsage) (id : String) (db : Db) {u : Unit {0}} {db' : Db}
      → accept_tx client a body usage id db ≡ ok (u, db')
      → can_store usage id db ≡ true
  unfolding accept_tx
  accept_tx-stored body usage id db h = ground arith

  -- Accepting a report about an assignment of the client that is in the database raises `internal_error`
  -- and leaves the database as it was, if the report's numbers do not fit their columns or its id is
  -- taken. Otherwise the assignment and a report about it are in the database whatever happens next:
  -- when the acceptance returns, when its reply fails, and when the routing raises anything, which
  -- becomes `broker_uncertain` and leaves the workflow uncertain.
  pub accept_report-Ended :
      (run : Run) (m : ReportMessage) (body : Body) (usage : Option ReportUsage) (b : Broker)
      → select (is_own client a.id) b.db.assignments ≡ some a
      → Ended client a
          (can_store usage (run.token b.drawn) b.db)
          b.db
          (accept_report run client m body usage a b).1.db
          (accept_report run client m body usage a b).0
  unfolding accept_report draw remember_report broadcast ◌>>=◌ transact
  accept_report-Ended run m body usage b found =
      elim (Result-cases (accept_tx client a body usage (run.token b.drawn) b.db)) [
        | inr (code, e) ↦
            let known = accept_tx-refused body usage (run.token b.drawn) b.db e in
            rw (e, accept_report, transact, ◌>>=◌, draw, known.0) (refused refl known.1)
        | inl ((u, db), e) ↦
            let room = accept_tx-stored body usage (run.token b.drawn) b.db {u = u} {db' = db} e in
            let known : Known client a.id a.kind db =
              accepted-Known client a.id a.kind body usage a b.db (run.token b.drawn) db e
                (found, refl, refl) in
            rw (e, accept_report, transact, ◌>>=◌, draw)
              (routed-Ended b.db m.id _ _ room (route_accepted-Routed run body _) (
                Post-Of (Known client a.id a.kind) _ _ (
                  (Keeps-route_accepted (Known client a.id a.kind)
                      (Known-Lasting client a.id a.kind) run client a body).at
                    _ known)))
      ]
