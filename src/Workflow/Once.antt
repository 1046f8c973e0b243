-- ===== src/Workflow/Once.antt =====
-- An assignment is reported once, and a report that is sent again is only acknowledged
-- (broker_workflow.py).
use pi_tmux_orchestrator.Prelude.{
  ℕ, ◌≤◌, String, ◌≡◌, ◌⊎◌, inl, inr, refl, Bool, true, false, Option, some, none, List, [], ◌∷◌,
  arith, ◌==◌, String_eq, ℕ_eq, Bool-cases, Option-cases, eq_iff,
}
use pi_tmux_orchestrator.Prelude.Result.{Result, ok, err, ErrorCode}
use pi_tmux_orchestrator.Prelude.Table.{insert, count, exists, count-insert, select}
use pi_tmux_orchestrator.Store.Rows.{Db, Kind, Kind_eq, Assignment}
use pi_tmux_orchestrator.Store.Writes.{record_event, set_workflow_state, set_round}
use pi_tmux_orchestrator.Broker.State.{Broker, Client}
use pi_tmux_orchestrator.Broker.Rules.{
  Keeps, Triple, Post, Triple-bind, Triple-then, Triple-transact, Triple-send, Keeps-raise,
  Keeps-when,
}
use pi_tmux_orchestrator.Attention.Rows.{record_report_rejection}
use pi_tmux_orchestrator.Attention.Handlers.{lift}
use pi_tmux_orchestrator.Protocol.Body.{Body}
use pi_tmux_orchestrator.Workflow.Deliver.{Run}
use pi_tmux_orchestrator.Workflow.Assign.{add_assignment}
use pi_tmux_orchestrator.Workflow.Untouched.{Of}
use pi_tmux_orchestrator.Workflow.Routing.{Keeps-lift}
use pi_tmux_orchestrator.Workflow.Verdict.{assign_tx-cases, Post-Of}
use pi_tmux_orchestrator.Workflow.Accepting.{Lasting, Triple-accept_report}
use pi_tmux_orchestrator.Workflow.Accept.{
  ReportMessage, ReportUsage, is_about, is_own, check_tx, accept_tx, accepted, report_row,
  finish_report, handle_valid_report, handle_report, record_rejection, rejected, named_assignment,
  is_orchestration,
}

-- No assignment has more than one report.
abbrev pub ReportedOnce : Db → Type 0
ReportedOnce db = (id : String) → count (is_about id) db.reports ≤ 1

reports-add :
    (role : String) (kind : Kind) (n : ℕ) (id delivery_id : String) (db : Db)
    → (add_assignment role kind n id delivery_id db).reports ≡ db.reports
unfolding record_event set_workflow_state
reports-add role kind n id delivery_id db = ground arith

ReportedOnce-Lasting : Lasting ReportedOnce
unfolding set_workflow_state set_round record_event
ReportedOnce-Lasting = record {
  respected = record {
    events = λ db e n h. h;
    activations = λ db rows h. h;
    assigned = λ role kind n id delivery_id db paused db' e h.
        elim (assign_tx-cases role kind n id delivery_id db paused db' e) [
          | inl done ↦ rw done h
          | inr done ↦ rw (done, reports-add role kind n id delivery_id db) h
        ];
    advanced = λ db n run h. h;
  };
  approved = λ db run n paused h. h;
  uncertain = λ db client a h. h;
}

-- The assignment that is about to be completed has no report.
abbrev Fresh : Option Assignment → Db → Type 0
Fresh none db = ReportedOnce db
Fresh (some a) db = ReportedOnce db × (count (is_about a.id) db.reports ≡ 0)

count-none :
    {A : Type 0} (test : A → Bool) (rows : List A) → exists test rows ≡ false → count test rows ≡ 0
unfolding exists count
count-none test [] h = refl
count-none test (x ∷ rest) h = ground (arith, count-none test rest)

module _ (run : Run) (client : Client) (m : ReportMessage) where
  check_tx-Fresh :
      (id : String) (kind : Kind) (db : Db) {found : Option Assignment} {db' : Db}
      → check_tx client id kind db ≡ ok (found, db')
      → ReportedOnce db
      → Fresh found db'
  unfolding check_tx
  check_tx-Fresh id kind db {found} {db'} h once =
      elim (Option-cases (select (is_own client id) db.assignments)) [
        | inl missing ↦ absurd (ground (arith, missing))
        | inr (a, there) ↦ elim (Bool-cases (exists (is_about a.id) db.reports)) [
          | inl known ↦
              let same : db' ≡ db = ground (arith, there, known) in
              let repeated : found ≡ none = ground (arith, there, known) in rw (same, repeated) once
          | inr fresh ↦
              let same : db' ≡ db = ground (arith, there, fresh) in
              let mine : found ≡ some a = ground (arith, there, fresh) in
              rw (same, mine) (once, count-none (is_about a.id) db.reports fresh)
        ]
      ]

  accept_tx-ReportedOnce :
      (body : Body) (usage : Option ReportUsage) (a : Assignment) (db : Db) (id : String) (db' : Db)
      → accept_tx client a body usage id db ≡ ok (tt, db')
      → Fresh (some a) db
      → ReportedOnce db'
  unfolding accept_tx record_event
  accept_tx-ReportedOnce body usage a db id db' h (once, none_yet) about =
      let done : db' ≡ accepted client a body usage id db = ground arith in
      rw done (added (Bool-cases (a.id == about)))
    where
      added :
          (a.id == about ≡ true) ⊎ (a.id == about ≡ false)
          → count (is_about about) (insert (report_row client a body id) db.reports) ≤ 1
      added (inl same) =
          let e : a.id ≡ about = ground (arith, eq_iff a.id about) in
          ground (
            arith,
            count-insert (is_about about) (report_row client a body id) db.reports,
            rw e at none_yet,
          )
      added (inr other) = ground (
        arith,
        count-insert (is_about about) (report_row client a body id) db.reports,
        once about,
      )

  Keeps-finish :
      (body : Body) (usage : Option ReportUsage) (found : Option Assignment)
      → Triple
          (Of (Fresh found))
          (finish_report run client m body usage found)
          (λ _. Of ReportedOnce)
          (Of ReportedOnce)
  Keeps-finish body usage none = Triple-send client.role _ (λ db sent h. h)
  Keeps-finish body usage (some a) =
      Triple-accept_report ReportedOnce ReportedOnce-Lasting run client (λ db. Fresh (some a) db)
        ReportedOnce m body usage a (λ db h. h.0) (λ db h. h)
        (λ db id db' e h. accept_tx-ReportedOnce body usage a db id db' e h)

  Keeps-handle_valid_report : Keeps (Of ReportedOnce) (handle_valid_report run client m)
  unfolding handle_valid_report
  Keeps-handle_valid_report = Triple-bind _ _ _ (kept _) λ body. Triple-bind _ _ _ (kept _) λ usage.
      Triple-then _ _ _ (kept _) (
        Triple-bind _ _ _ (kept _) λ id.
          Triple-bind (λ found. Of (Fresh found)) _ _
            (Triple-transact _ λ db sent found db' e h.
              check_tx-Fresh id body.kind db {found = found} {db' = db'} e h)
            (λ found. Keeps-finish body usage found))
    where
      kept : {A : Type 0} (r : Result A) → Keeps (Of ReportedOnce) (lift r)
      kept r = Keeps-lift ReportedOnce ReportedOnce-Lasting.respected run r

  Keeps-record_rejection :
      (code : ErrorCode) → Keeps (Of ReportedOnce) (record_rejection run client m code)
  unfolding record_report_rejection
  Keeps-record_rejection code = Keeps-when (is_orchestration code) _ (
      Triple-transact _ λ db sent u db' e h.
        let done : db' ≡ record_report_rejection (named_assignment run m.assignment_id) client db =
          ground arith in
        rw done h)

  -- Handling a `report` frame, whether it returns or raises and whichever writes fail, leaves every
  -- assignment with at most one report, if it was so before.
  pub handle_report-ReportedOnce :
      (b : Broker) → ReportedOnce b.db → ReportedOnce (handle_report run client m b).1.db
  unfolding handle_report
  handle_report-ReportedOnce b h =
      ended (handle_valid_report run client m b).0 (handle_valid_report run client m b).1
        (Keeps-handle_valid_report.at b h)
    where
      ended :
          (r : Result (Unit {0})) (c : Broker)
          → Post (λ _. Of ReportedOnce) (Of ReportedOnce) r c
          → ReportedOnce (rejected run client m r c).1.db
      ended (ok u) c k = k
      ended (err e) c k = Post-Of ReportedOnce _ _ (
          (Triple-then (Of ReportedOnce) _ _ (Keeps-record_rejection e)
              (Keeps-raise {A = Unit {0}} e)).at
            c k)
