-- ===== src/Workflow/Known.antt =====
-- An accepted report stays known (broker_workflow.py).
use pi_tmux_orchestrator.Prelude.{
  ℕ, String, ◌≡◌, ◌⊎◌, inl, inr, refl, sym, ap, ◌∙◌, Bool, true, Option, some, none, List, [], ◌∷◌,
  arith, ◌==◌, String_eq, ℕ_eq, if◌then◌else◌, Bool-cases, eq_iff,
}
use pi_tmux_orchestrator.Prelude.Result.{Result, ok, err}
use pi_tmux_orchestrator.Prelude.Table.{
  insert, exists, select, update, select-insert-some, select_sound,
}
use pi_tmux_orchestrator.Store.Rows.{Db, Kind, Kind_eq, kind_beq_iff, Report, Assignment}
use pi_tmux_orchestrator.Store.Writes
use pi_tmux_orchestrator.Store.Writes.{record_event, set_workflow_state, set_round}
use pi_tmux_orchestrator.Broker.State.{Client}
use pi_tmux_orchestrator.Protocol.Body.{Body}
use pi_tmux_orchestrator.Workflow.Assign.{add_assignment, new_assignment}
use pi_tmux_orchestrator.Workflow.Verdict.{assign_tx-cases}
use pi_tmux_orchestrator.Workflow.Accepting.{Lasting}
use pi_tmux_orchestrator.Workflow.Accept.{
  ReportUsage, is_about, is_own, check_tx, check_found, accept_tx, accepted, report_row,
  completed_row,
}

-- The client's assignment of this id and kind is there, and so is a report about it.
pub record KnownIn (client : Client) (id : String) (kind : Kind) (assignments : List Assignment)
    (reports : List Report) : Type 0 where
  pub row : Assignment
  pub found : select (is_own client id) assignments ≡ some row
  pub of_kind : row.kind ≡ kind
  pub reported : exists (is_about id) reports ≡ true

abbrev pub Known : Client → String → Kind → Db → Type 0
Known client id kind db = KnownIn client id kind db.assignments db.reports

exists-insert :
    {A : Type 0} (test : A → Bool) (x : A) (rows : List A)
    → exists test rows ≡ true
    → exists test (insert x rows) ≡ true
unfolding exists
exists-insert test x [] h = cc
exists-insert test x (y ∷ rest) h = ground (arith, exists-insert test x rest)

inserted :
    {A : Type 0} (test : A → Bool) (x : A) (rows : List A)
    → test x ≡ true
    → exists test (insert x rows) ≡ true
unfolding exists
inserted test x [] h = ground arith
inserted test x (y ∷ rest) h = ground (arith, inserted test x rest)

-- An update that keeps the tested columns changes the row that is found, and not which.
pub select-update :
    {A : Type 0} (test which : A → Bool) (set : A → A) (rows : List A) {x : A}
    → ((y : A) → test (set y) ≡ test y)
    → select test rows ≡ some x
    → select test (update which set rows) ≡ some (if which x then set x else x)
unfolding select update
select-update test which set [] k h = cc
select-update test which set (y ∷ rest) {x} k h =
    ground (arith, k y, select-update test which set rest {x = x} k)

reports-add_assignment :
    (role : String) (k : Kind) (n : ℕ) (new delivery_id : String) (db : Db)
    → (add_assignment role k n new delivery_id db).reports ≡ db.reports
unfolding record_event set_workflow_state
reports-add_assignment role k n new delivery_id db = ground arith

assignments-add_assignment :
    (role : String) (k : Kind) (n : ℕ) (new delivery_id : String) (db : Db)
    → (add_assignment role k n new delivery_id db).assignments
      ≡ insert (new_assignment role k n new delivery_id) db.assignments
unfolding record_event set_workflow_state
assignments-add_assignment role k n new delivery_id db = ground arith

module _ (client : Client) (id : String) (kind : Kind) where
  KnownIn-insert :
      (x : Assignment) (assignments : List Assignment) (reports : List Report)
      → KnownIn client id kind assignments reports
      → KnownIn client id kind (insert x assignments) reports
  KnownIn-insert x assignments reports h = record {
    row = h.row;
    found = select-insert-some (is_own client id) x assignments {y = h.row} h.found;
    of_kind = h.of_kind;
    reported = h.reported;
  }

  pub Known-Lasting : Lasting (Known client id kind)
  unfolding set_workflow_state set_round record_event
  Known-Lasting = record {
    respected = record {
      events = λ db e n h. h;
      activations = λ db rows h. h;
      assigned = λ role k n new delivery_id db paused db' e h.
          elim (assign_tx-cases role k n new delivery_id db paused db' e) [
            | inl done ↦ rw done h
            | inr done ↦
                rw
                  (
                    done,
                    reports-add_assignment role k n new delivery_id db,
                    assignments-add_assignment role k n new delivery_id db,
                  )
                  (KnownIn-insert _ db.assignments db.reports h)
          ];
      advanced = λ db n run h. h;
    };
    approved = λ db run n paused h. h;
    uncertain = λ db c a h. h;
  }

  -- The assignment that is to be completed, as the check found it.
  abbrev pub Found : Option Assignment → Db → Type 0
  Found none db = Known client id kind db
  Found (some a) db =
      (select (is_own client id) db.assignments ≡ some a) × (a.kind ≡ kind) × (a.id ≡ id)

  check_found-cases :
      (a : Assignment) (db : Db) {found : Option Assignment}
      → check_found client kind (some a) db ≡ ok found
      → (a.kind == kind ≡ true)
        × (((found ≡ none) × (exists (is_about a.id) db.reports ≡ true)) ⊎ (found ≡ some a))
  check_found-cases a db {found} h = elim (Bool-cases (a.kind == kind)) [
    | inr other ↦ absurd (ground (arith, other))
    | inl same ↦ elim (Bool-cases (exists (is_about a.id) db.reports)) [
      | inl known ↦ (same, inl (ground (arith, same, known), known))
      | inr fresh ↦ (same, inr (ground (arith, same, fresh)))
    ]
  ]

  row-Found :
      (a : Assignment) (db : Db) (found : Option Assignment)
      → select (is_own client id) db.assignments ≡ some a
      → check_found client kind (some a) db ≡ ok found
      → Found found db
  row-Found a db found there h =
      let mine : is_own client id a ≡ true =
        select_sound (is_own client id) db.assignments {x = a} there in
      let same_id : a.id ≡ id = ground (arith, eq_iff a.id id) in
      let (kinds, cases) = check_found-cases a db {found = found} h in
      let same_kind : a.kind ≡ kind = (kind_beq_iff a.kind kind).0 kinds in
      elim cases [
        | inl (repeated, known) ↦ rw repeated (record {
          row = a;
          found = there;
          of_kind = same_kind;
          reported = ap (λ i. exists (is_about i) db.reports) (sym same_id) ∙ known;
        })
        | inr new ↦ rw new (there, same_kind, same_id)
      ]

  check_found-Found :
      (row : Option Assignment) (db : Db) (found : Option Assignment)
      → select (is_own client id) db.assignments ≡ row
      → check_found client kind row db ≡ ok found
      → Found found db
  check_found-Found none db found there h = cc
  check_found-Found (some a) db found there h = row-Found a db found there h

  lift-eq-ok :
      {A : Type 0} (r : Result A) (db : Db) {a : A} {db' : Db}
      → Writes.lift r db ≡ ok (a, db')
      → (r ≡ ok a) × (db' ≡ db)
  lift-eq-ok (ok x) db h = (ground arith, ground arith)
  lift-eq-ok (err c) db h = cc

  pub check_tx-Found :
      (db : Db) (found : Option Assignment) (db' : Db)
      → check_tx client id kind db ≡ ok (found, db')
      → Found found db'
  unfolding check_tx
  check_tx-Found db found db' h =
      let (e, same) = lift-eq-ok _ db h in
      rw same (check_found-Found (select (is_own client id) db.assignments) db found refl e)

  pub accepted-Known :
      (body : Body) (usage : Option ReportUsage) (a : Assignment) (db : Db) (new : String)
      (db' : Db)
      → accept_tx client a body usage new db ≡ ok (tt, db')
      → Found (some a) db
      → Known client id kind db'
  unfolding accept_tx record_event
  accepted-Known body usage a db new db' h (there, same_kind, same_id) =
      let done : db' ≡ accepted client a body usage new db = ground arith in
      let mine : a.id == id ≡ true = ground (arith, eq_iff a.id id) in
      rw done (record {
        row = if a.id == a.id then completed_row a else a;
        found =
            select-update (is_own client id) (λ (x : Assignment). x.id == a.id) completed_row
              db.assignments {x = a} (λ y. refl) there;
        of_kind = ground (arith, same_kind);
        reported = inserted (is_about id) (report_row client a body new) db.reports mine;
      })
