-- ===== src/Workflow/Replayed.antt =====
-- A report that was accepted and is sent again is only acknowledged (broker_workflow.py).
use pi_tmux_orchestrator.Prelude.{
  String, ◌≡◌, ◌≢◌, refl, ap, ◌∙◌, Bool, true, false, Option, some, none, List, [], ◌∷◌, arith,
  ◌==◌, String_eq, ℕ_eq, eq_iff,
}
use pi_tmux_orchestrator.Prelude.Result.{Result, ok, err, ErrorCode}
use pi_tmux_orchestrator.Prelude.Table.{exists, select_sound}
use pi_tmux_orchestrator.Store.Rows.{Db, Kind, Kind_eq, kind_beq_iff, Assignment}
use pi_tmux_orchestrator.Store.Writes
use pi_tmux_orchestrator.Store.Writes.{record_event, set_workflow_state, set_round}
use pi_tmux_orchestrator.Broker.State.{Broker, Client}
use pi_tmux_orchestrator.Broker.Transport.{
  Exec, ◌>>=◌, ◌>>◌, raise, when, transact, send, reply, continue,
}
use pi_tmux_orchestrator.Broker.Rules.{
  Triple, Post, Triple-bind, Triple-transact, Triple-send, Triple-weaken, Triple-ensure,
}
use pi_tmux_orchestrator.Attention.Handlers.{lift}
use pi_tmux_orchestrator.Protocol.Body.{Body}
use pi_tmux_orchestrator.Protocol.Report.{validate_report}
use pi_tmux_orchestrator.Protocol.Identity.{token_of}
use pi_tmux_orchestrator.Roles.Contracts.{contracts_value}
use pi_tmux_orchestrator.Workflow.Deliver.{Run}
use pi_tmux_orchestrator.Workflow.Untouched.{Of}
use pi_tmux_orchestrator.Workflow.Accepting.{Triple-accept_report}
use pi_tmux_orchestrator.Workflow.Accept.{
  ReportMessage, ReportUsage, is_about, is_own, check_tx, checked_report_usage, checked_identity,
  finish_report, handle_valid_report, handle_report, rejected, is_orchestration,
}
use pi_tmux_orchestrator.Workflow.Known.{
  Found, Known, Known-Lasting, accepted-Known, check_tx-Found,
}

abbrev Anything : Db → Type 0
Anything db = Unit

-- `x ← lift r; f x`, with the equation that the value satisfies.
Triple-lift :
    {A B : Type 0} {Q : B → Db → Type 0} (r : Result A) (f : A → Exec B)
    → ((a : A) → r ≡ ok a → Triple (Of Anything) (f a) (λ b. Of (Q b)) (Of Anything))
    → Triple (Of Anything) (lift r >>= f) (λ b. Of (Q b)) (Of Anything)
unfolding ◌>>=◌
Triple-lift {A} {B} {Q} r f k = record { at = λ b h. run r refl b }
  where
    run :
        (s : Result A)
        → r ≡ s
        → (b : Broker) → Post (λ b. Of (Q b)) (Of Anything) (continue f s b).0 (continue f s b).1
    run (ok a) e b = (k a e).at b tt
    run (err c) e b = tt

module _ (run : Run) (client : Client) (m : ReportMessage) where
  -- The frame is valid, and its report is already there.
  pub record Handled (db : Db) : Type 0 where
    pub body : Body
    pub usage : Option ReportUsage
    pub id : String
    pub is_valid :
        validate_report m.report client.role (contracts_value run.custom_contracts) ≡ ok body
    pub has_usage : checked_report_usage m.usage ≡ ok usage
    pub has_identity : checked_identity m.runtime_identity ≡ ok tt
    pub has_token : token_of m.assignment_id ≡ ok id
    pub known : Known client id body.kind db

  Known-finish :
      (body : Body) (usage : Option ReportUsage) (id : String) (found : Option Assignment)
      → Triple
          (Of (Found client id body.kind found))
          (finish_report run client m body usage found)
          (λ _. Of (Known client id body.kind))
          (Of Anything)
  Known-finish body usage id none =
      Triple-weaken _ (λ db sent h. tt) (Triple-send client.role _ (λ db sent h. h))
  Known-finish body usage id (some a) =
      Triple-accept_report (Known client id body.kind) (Known-Lasting client id body.kind) run
        client (λ db. Found client id body.kind (some a) db) Anything m body usage a (λ db h. tt)
        (λ db h. tt)
        (λ db new db' e h. accepted-Known client id body.kind body usage a db new db' e h)

  checked-Known :
      (body : Body) (usage : Option ReportUsage) (id : String)
      → Triple
          (Of Anything)
          (transact (check_tx client id body.kind) >>= finish_report run client m body usage)
          (λ _. Of (Known client id body.kind))
          (Of Anything)
  checked-Known body usage id =
      Triple-bind (λ found. Of (Found client id body.kind found)) _ _
        (Triple-transact _
          λ db sent found db' e h. check_tx-Found client id body.kind db found db' e)
        (Known-finish body usage id)

  Handled-handle :
      Triple (Of Anything) (handle_valid_report run client m) (λ _. Of Handled) (Of Anything)
  unfolding handle_valid_report
  Handled-handle = Triple-lift _ _ λ body is_valid. Triple-lift _ _ λ usage has_usage.
      Triple-lift _ _ λ u has_identity. Triple-lift _ _ λ id has_token.
        Triple-ensure _
          (λ v db sent known. record {
            body = body;
            usage = usage;
            id = id;
            is_valid = is_valid;
            has_usage = has_usage;
            has_identity = has_identity;
            has_token = has_token;
            known = known;
          })
          (checked-Known body usage id)

  check_tx-Known :
      (id : String) (kind : Kind) (db : Db)
      → Known client id kind db
      → check_tx client id kind db ≡ ok (none, db)
  unfolding check_tx
  check_tx-Known id kind db known =
      let mine : is_own client id known.row ≡ true =
        select_sound (is_own client id) db.assignments {x = known.row} known.found in
      let same_id : known.row.id ≡ id = ground (arith, eq_iff known.row.id id) in
      let same_kind : (known.row.kind == kind) ≡ true =
        (kind_beq_iff known.row.kind kind).1 known.of_kind in
      let there : exists (is_about known.row.id) db.reports ≡ true =
        ap (λ i. exists (is_about i) db.reports) same_id ∙ known.reported in
      rw (known.found, same_kind, there, check_tx) refl

  transact-eq :
      {A : Type 0} (tx : Writes.Tx A) (a : A) (b : Broker)
      → tx b.db ≡ ok (a, b.db)
      → transact tx b ≡ (ok a, b)
  unfolding transact
  transact-eq tx a b e = rw (e, transact) refl

  handle_valid_report-Handled :
      (b : Broker)
      → Handled b.db
      → handle_valid_report run client m b ≡ reply client m.id true "duplicate" b
  unfolding handle_valid_report ◌>>=◌
  handle_valid_report-Handled b h =
      rw
        (
          h.is_valid,
          h.has_usage,
          h.has_identity,
          h.has_token,
          transact-eq (check_tx client h.id h.body.kind) none b
              (check_tx-Known h.id h.body.kind b.db h.known),
          handle_valid_report,
          ◌>>=◌,
        )
        refl

  -- A failed write is no rejection of the report.
  rejected-reply :
      (b : Broker)
      → rejected run client m
          (reply client m.id true "duplicate" b).0
          (reply client m.id true "duplicate" b).1
        ≡ reply client m.id true "duplicate" b
  unfolding send ◌>>=◌
  rejected-reply b = written b.link refl
    where
      written :
          (link : List Bool)
          → b.link ≡ link
          → rejected run client m
              (reply client m.id true "duplicate" b).0
              (reply client m.id true "duplicate" b).1
            ≡ reply client m.id true "duplicate" b
      written [] e = rw (e, send) refl
      written (true ∷ rest) e = rw (e, send) refl
      written (false ∷ rest) e = rw (e, send) refl

  raises :
      (code : ErrorCode) (write : Db → Db) (t : Bool) (c : Broker)
      → ((when t (transact (Writes.modify write)) >> raise {A = Unit {0}} code) c).0 ≢ ok tt
  unfolding ◌>>=◌ transact
  raises code write true c e = cc
  raises code write false c e = cc

  returned-Handled :
      (r : Result (Unit {0})) (c : Broker)
      → (rejected run client m r c).0 ≡ ok tt
      → Post (λ _. Of Handled) (Of Anything) r c
      → Handled (rejected run client m r c).1.db
  unfolding ◌>>=◌
  returned-Handled (ok u) c e h = h
  returned-Handled (err code) c e h = absurd (raises code _ (is_orchestration code) c e)

  -- Once `handle_report` has returned, handling the same frame again only replies "duplicate": whatever
  -- the first call routed, the second changes no table and draws no token, and it raises only if its
  -- own reply cannot be written.
  pub handle_report-handle_report :
      (b : Broker)
      → (handle_report run client m b).0 ≡ ok tt
      → handle_report run client m (handle_report run client m b).1
        ≡ reply client m.id true "duplicate" (handle_report run client m b).1
  unfolding handle_report
  handle_report-handle_report b returned =
      let known : Handled (handle_report run client m b).1.db =
        returned-Handled _ _ returned (Handled-handle.at b tt) in
      rw (handle_valid_report-Handled (handle_report run client m b).1 known, handle_report)
        (rejected-reply (handle_report run client m b).1)
