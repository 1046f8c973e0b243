-- ===== src/Workflow/Routing.antt =====
-- What routing keeps of the database, for a predicate that its writes respect (broker_workflow.py).
use pi_tmux_orchestrator.Prelude.{
  ℕ, ◌+◌, String, ◌≡◌, refl, Bool, true, false, ◌||◌, ◌&&◌, none, List, [], ◌∷◌, arith, ◌==◌,
  String_eq, Option_eq, ℕ_eq, if◌then◌else◌, contains, Option-cases, inl, inr,
}
use pi_tmux_orchestrator.Prelude.Result.{Result, ok, err, Result-cases}
use pi_tmux_orchestrator.Prelude.Json.{Value}
use pi_tmux_orchestrator.Prelude.Table.{select}
use pi_tmux_orchestrator.Store.Rows.{Db, Activation, Kind, Kind_eq, WorkflowState}
use pi_tmux_orchestrator.Store.Writes
use pi_tmux_orchestrator.Store.Writes.{bind-eq-ok, record_event}
use pi_tmux_orchestrator.Broker.State.{Broker}
use pi_tmux_orchestrator.Broker.Transport.{pure, transact}
use pi_tmux_orchestrator.Broker.Rules.{
  Keeps, Post, Triple-bind, Triple-then, Triple-transact, Triple-send, Keeps-when, Keeps-pure,
  Keeps-broadcast_workflow,
}
use pi_tmux_orchestrator.Attention.Handlers.{lift}
use pi_tmux_orchestrator.Roles.Contracts.{
  specialist_of, contract_of, contracts_value, validate_assignment_kind,
}
use pi_tmux_orchestrator.Specialists.Decide.{activation_of}
use pi_tmux_orchestrator.Specialists.Forced.{retained_forced_specialists}
use pi_tmux_orchestrator.Specialists.Activation.{
  record_specialist_activation, public_specialist_activations, is_same_slot, activated,
}
use pi_tmux_orchestrator.Protocol.Body.{Body}
use pi_tmux_orchestrator.Workflow.Deliver.{Run, is_connected, keep_run_state}
use pi_tmux_orchestrator.Workflow.Assign.{
  assign, assign_tx, assign_connected, if_connected, announce,
}
use pi_tmux_orchestrator.Workflow.Review.{maybe_assign_reviewer, review_tx}
use pi_tmux_orchestrator.Workflow.Untouched.{
  Of, IgnoresEvents, Keeps-draw, Keeps-deliver, Keeps-flush, Keeps-run_state_capsule,
}
use pi_tmux_orchestrator.Workflow.Route.{
  deliver_to, deliver_each, deliver_run_state, deliver_or_keep, must_wait, keep_pending,
  decide_each, decide_one, decide_all, decision_for, assign_each, kind_for, route_implementation,
  route_plan, route_evidence, route_changes, route_report, flow_tx, next_round, is_custom,
  is_approval, unique, retained_implementation_flow, route_approval,
}

-- What the routes write: events, decisions, assignments and the next round.
pub record Respected (P : Db → Type 0) : Type 0 where
  pub events : IgnoresEvents P
  pub activations : (db : Db) (rows : List Activation) → P db → P (record db { activations = rows })
  pub assigned :
      (role : String) (kind : Kind) (n : ℕ) (id delivery_id : String) (db : Db) (paused : Bool)
      (db' : Db)
      → assign_tx role kind n id delivery_id db ≡ ok (paused, db')
      → P db
      → P db'
  pub advanced : (db : Db) (n : ℕ) (run : Run) → P db → P (next_round run n db)

-- A transaction that leaves `P` wherever it commits.
abbrev pub KeepsTx : {A : Type 0} → (Db → Type 0) → Writes.Tx A → Type 0
KeepsTx {A} P tx = (db : Db) (a : A) (db' : Db) → tx db ≡ ok (a, db') → P db → P db'

module _ (P : Db → Type 0) (respected : Respected P) (run : Run) where
  pub KeepsTx-pure : {A : Type 0} (x : A) → KeepsTx P (Writes.pure x)
  KeepsTx-pure x db a db' h p = let same : db' ≡ db = ground arith in rw same p

  pub KeepsTx-lift : {A : Type 0} (r : Result A) → KeepsTx P (Writes.lift r)
  KeepsTx-lift (ok x) = KeepsTx-pure x
  KeepsTx-lift (err c) = λ db a db' h p. cc

  pub KeepsTx-bind :
      {A B : Type 0} (m : Writes.Tx A) (f : A → Writes.Tx B)
      → KeepsTx P m
      → ((a : A) → KeepsTx P (f a))
      → KeepsTx P (Writes.◌>>=◌ m f)
  KeepsTx-bind m f k l db b db' h p =
      let (a, mid, e, h1) = bind-eq-ok m f db h in l a mid b db' h1 (k db a mid e p)

  pub Keeps-lift : {A : Type 0} (r : Result A) → Keeps (Of P) (lift r)
  Keeps-lift {A} r = record { at = λ b h. kept r b h }
    where
      kept : (r : Result A) (b : Broker) → P b.db → Post (λ _. Of P) (Of P) r b
      kept (ok a) b h = h
      kept (err c) b h = h

  Keeps-announce :
      (role : String) (kind : Kind) (n : ℕ) (id delivery_id : String) (paused : Bool)
      → Keeps (Of P) (announce role kind n id delivery_id paused)
  Keeps-announce role kind n id delivery_id true =
      Keeps-broadcast_workflow WorkflowState.needs_attention n
  Keeps-announce role kind n id delivery_id false = Triple-send role _ (λ db sent h. h)

  Keeps-assign_connected :
      (role : String) (kind : Kind) (n : ℕ) → Keeps (Of P) (assign_connected run role kind n)
  unfolding assign_connected
  Keeps-assign_connected role kind n =
      Triple-then _ _ _ (Keeps-flush P respected.events run role n) (
        Triple-bind _ _ _ (Keeps-draw P respected.events run) λ id.
          Triple-bind _ _ _ (Keeps-draw P respected.events run) λ delivery_id.
            Triple-bind _ _ _
              (Triple-transact _ λ db sent paused db' e h.
                respected.assigned role kind n id delivery_id db paused db' e h)
              (Keeps-announce role kind n id delivery_id))

  pub Keeps-assign : (role : String) (kind : Kind) (n : ℕ) → Keeps (Of P) (assign run role kind n)
  unfolding assign if_connected
  Keeps-assign role kind n =
      Triple-then _ _ _
        (Keeps-lift (validate_assignment_kind role kind (contracts_value run.custom_contracts)))
        (record {
          at = λ b h.
              (Keeps-when (is_connected run role b) _ (Keeps-assign_connected role kind n)).at b h;
        })

  Keeps-deliver_or_keep :
      (role : String) (n : ℕ) (waits : Bool) → Keeps (Of P) (deliver_or_keep run role n waits)
  unfolding keep_pending keep_run_state
  Keeps-deliver_or_keep role n true = record { at = λ b h. h }
  Keeps-deliver_or_keep role n false =
      Triple-then _ _ _ (record { at = λ b h. h })
        (Keeps-deliver P respected.events run role "run_state" n false none)

  Keeps-deliver_to : (n : ℕ) (role : String) → Keeps (Of P) (deliver_to run n role)
  unfolding deliver_to
  Keeps-deliver_to n role = record {
    at = λ b h.
        (Keeps-when (is_connected run role b) _
            (Keeps-deliver_or_keep role n (must_wait run role b))).at
          b h;
  }

  Keeps-deliver_each : (n : ℕ) (roles : List String) → Keeps (Of P) (deliver_each run n roles)
  unfolding deliver_each
  Keeps-deliver_each n [] = Keeps-pure tt
  Keeps-deliver_each n (role ∷ rest) =
      Triple-then _ _ _ (Keeps-deliver_to n role) (Keeps-deliver_each n rest)

  pub Keeps-deliver_run_state :
      (roles : List String) (n : ℕ) → Keeps (Of P) (deliver_run_state run roles n)
  unfolding deliver_run_state
  Keeps-deliver_run_state roles n =
      Triple-then _ _ _ (Keeps-run_state_capsule P respected.events run n)
        (Keeps-deliver_each n (unique roles))

  recorded :
      (a : Activation) (db : Db) {u : Unit {0}} {db' : Db}
      → record_specialist_activation a db ≡ ok (u, db')
      → P db
      → P db'
  unfolding record_specialist_activation record_event
  recorded a db {u} {db'} h p = elim (Option-cases (select (is_same_slot a) db.activations)) [
    | inl fresh ↦
        let done : db' ≡ activated a db = ground (arith, fresh) in
        rw done (respected.events _ _ _ (respected.activations db _ p))
    | inr (x, known) ↦ let same : db' ≡ db = ground (arith, known) in rw same p
  ]

  pub KeepsTx-record : (a : Activation) → KeepsTx P (record_specialist_activation a)
  KeepsTx-record a db u db' h p = recorded a db h p

  KeepsTx-decide_one :
      (n : ℕ) (paths : Value) (forced : List String) (name : String)
      (others : Writes.Tx (List String))
      → KeepsTx P others
      → KeepsTx P (decide_one run n paths forced name others)
  KeepsTx-decide_one n paths forced name others k =
      KeepsTx-bind _ _
        (KeepsTx-lift (
          decision_for run name (contract_of run.custom_contracts name) paths
            (contains forced name)))
        λ d.
          KeepsTx-bind _ _ (KeepsTx-record (activation_of n d))
            (λ u. KeepsTx-bind _ _ k (λ more. KeepsTx-pure _))

  pub KeepsTx-if :
      {A : Type 0} (test : Bool) (m k : Writes.Tx A)
      → KeepsTx P m
      → KeepsTx P k
      → KeepsTx P (if test then m else k)
  KeepsTx-if true m k km kk = km
  KeepsTx-if false m k km kk = kk

  KeepsTx-decide_each :
      (n : ℕ) (paths : Value) (forced existing names : List String)
      → KeepsTx P (decide_each run n paths forced existing names)
  unfolding decide_each
  KeepsTx-decide_each n paths forced existing [] = KeepsTx-pure _
  KeepsTx-decide_each n paths forced existing (name ∷ rest) =
      let others = KeepsTx-decide_each n paths forced existing rest in
      KeepsTx-if (contains existing name) _ _ others
        (KeepsTx-decide_one n paths forced name _ others)

  KeepsTx-decide_all : (n : ℕ) (paths : List String) → KeepsTx P (decide_all run n paths)
  unfolding decide_all
  KeepsTx-decide_all n paths db =
      KeepsTx-bind _ _ (KeepsTx-lift (public_specialist_activations n db.activations))
        (λ existing.
          KeepsTx-bind _ _
            (KeepsTx-lift (retained_forced_specialists db.meta.forced_specialists run.roles))
            (λ forced. KeepsTx-decide_each n _ forced _ _))
        db

  pub Keeps-transact : {A : Type 0} (tx : Writes.Tx A) → KeepsTx P tx → Keeps (Of P) (transact tx)
  Keeps-transact tx k = Triple-transact tx λ db sent a db' e h. k db a db' e h

  Keeps-assign_each : (n : ℕ) (names : List String) → Keeps (Of P) (assign_each run n names)
  unfolding assign_each
  Keeps-assign_each n [] = Keeps-pure tt
  Keeps-assign_each n (name ∷ rest) =
      Triple-bind _ _ _
        (Keeps-lift (kind_for run (contract_of run.custom_contracts name) (specialist_of name)))
        λ kind. Triple-then _ _ _ (Keeps-assign name kind n) (Keeps-assign_each n rest)

  pub Keeps-maybe_assign_reviewer : (n : ℕ) → Keeps (Of P) (maybe_assign_reviewer run n)
  unfolding maybe_assign_reviewer review_tx
  Keeps-maybe_assign_reviewer n =
      Triple-bind _ _ _
        (Triple-transact _ λ db sent due db' e h.
          elim (Result-cases (public_specialist_activations n db.activations)) [
            | inr (c, k) ↦ absurd (ground (arith, k))
            | inl (rows, k) ↦ let same : db' ≡ db = ground (arith, k) in rw same h
          ])
        λ due. Keeps-when due _ (Keeps-assign "reviewer" Kind.review n)

  Keeps-implementation : (n : ℕ) (report : Body) → Keeps (Of P) (route_implementation run n report)
  unfolding route_implementation
  Keeps-implementation n report =
      Triple-bind _ _ _ (Keeps-transact _ (KeepsTx-decide_all n report.changed_paths)) λ activated.
        Triple-then _ _ _ (Keeps-deliver_run_state ("reviewer" ∷ activated) n)
          (Triple-then _ _ _ (Keeps-assign_each n activated) (Keeps-maybe_assign_reviewer n))

  Keeps-plan : (n : ℕ) → Keeps (Of P) (route_plan run n)
  unfolding route_plan
  Keeps-plan n = Triple-then _ _ _ (Keeps-deliver_run_state ("implementer" ∷ []) n) (
      Triple-bind _ _ _
        (Keeps-transact (flow_tx run) λ db a db' h p.
          KeepsTx-lift (retained_implementation_flow db.meta.implementation_flow) db a db' h p)
        λ flow. Keeps-when (flow == "phased") _ (Keeps-assign "implementer" Kind.implementation n))

  Keeps-evidence : (n : ℕ) → Keeps (Of P) (route_evidence run n)
  unfolding route_evidence
  Keeps-evidence n =
      Triple-then _ _ _ (Keeps-deliver_run_state ("implementer" ∷ "reviewer" ∷ []) n)
        (Keeps-maybe_assign_reviewer n)

  Keeps-changes : (n : ℕ) → Keeps (Of P) (route_changes run n)
  unfolding route_changes
  Keeps-changes n = Triple-then _ _ _ (Keeps-deliver_run_state ("implementer" ∷ []) n) (
      Triple-then _ _ _
        (Triple-transact _ λ db sent a db' e h.
          let done : db' ≡ next_round run (n + 1) db = ground arith in
          rw done (respected.advanced db (n + 1) run h))
        (Triple-then _ _ _ (Keeps-broadcast_workflow WorkflowState.active (n + 1))
          (Keeps-assign "implementer" Kind.implementation (n + 1))))

  Keeps-if :
      (test : Bool) (m k : Broker → Result (Unit {0}) × Broker)
      → Keeps (Of P) m
      → Keeps (Of P) k
      → Keeps (Of P) (if test then m else k)
  Keeps-if true m k km kk = km
  Keeps-if false m k km kk = kk

  -- Any report but an approval, and an approval if its route keeps `P`.
  pub Keeps-route_report :
      (role : String) (n : ℕ) (report : Body)
      → (is_approval run role report ≡ true → Keeps (Of P) (route_approval run n))
      → Keeps (Of P) (route_report run role n report)
  unfolding route_report
  Keeps-route_report role n report k =
      Keeps-if (role == "probe" || is_custom run role) _ _ (Keeps-evidence n) (
        Keeps-if (role == "implementer" && report.kind == Kind.plan) _ _ (Keeps-plan n) (
          Keeps-if (role == "implementer") _ _ (Keeps-implementation n report) (
            Keeps-if (role == "playwright" || role == "django") _ _ (Keeps-evidence n)
              (approval (is_approval run role report) k))))
    where
      approval :
          (b : Bool)
          → (b ≡ true → Keeps (Of P) (route_approval run n))
          → Keeps (Of P) (
              if b
              then route_approval run n
              else if role == "reviewer"
              then route_changes run n
              else pure tt)
      approval true k = k refl
      approval false k = Keeps-if (role == "reviewer") _ _ (Keeps-changes n) (Keeps-pure tt)
