-- ===== src/Workflow/StartedOnce.antt =====
-- The workflow is started once (broker.py).
use pi_tmux_orchestrator.Prelude.{
  ℕ, String, ◌≡◌, refl, sym, subst, inl, inr, Bool, true, false, ◌&&◌, none, List, [], ◌∷◌, arith,
  if◌then◌else◌, Bool-cases, ◌==◌, String_eq, ltb, is_some, contains,
}
use pi_tmux_orchestrator.Prelude.Result.{ok}
use pi_tmux_orchestrator.Prelude.Json.{Value}
use pi_tmux_orchestrator.Store.Rows.{Db, Kind, Kind_eq, WorkflowState}
use pi_tmux_orchestrator.Store.Writes
use pi_tmux_orchestrator.Store.Writes.{
  record_event, set_workflow_state, set_round, settled_state, is_paused,
}
use pi_tmux_orchestrator.Broker.State.{Broker}
use pi_tmux_orchestrator.Broker.Transport.{◌>>=◌, transact}
use pi_tmux_orchestrator.Broker.Rules.{
  Keeps, Triple-bind, Triple-then, Triple-transact, Keeps-when, Keeps-pure,
  Keeps-broadcast_workflow,
}
use pi_tmux_orchestrator.Specialists.Decide.{decide_initial_probe, activation_of}
use pi_tmux_orchestrator.Specialists.Forced.{retained_forced_specialists}
use pi_tmux_orchestrator.Workflow.Deliver.{Run}
use pi_tmux_orchestrator.Workflow.Assign.{pause_repair, add_assignment, clear_pending}
use pi_tmux_orchestrator.Workflow.Untouched.{Of, Keeps-deliver}
use pi_tmux_orchestrator.Workflow.Route.{retained_implementation_flow}
use pi_tmux_orchestrator.Workflow.Routing.{
  Respected, KeepsTx, KeepsTx-bind, KeepsTx-lift, KeepsTx-pure, KeepsTx-record, KeepsTx-if,
  Keeps-transact, Keeps-assign,
}
use pi_tmux_orchestrator.Workflow.Verdict.{assign_tx-cases, Post-Of}
use pi_tmux_orchestrator.Workflow.Start.{
  is_connecting, begin_tx, activate, plain_event, all_connected, keep_baseline, deliver_baselines,
  decide_probe, first_decisions, initial_kind, runs_probe, start_workflow, if_begun,
  maybe_start_workflow,
}

-- The workflow no longer waits for its workers.
abbrev pub Begun : Db → Type 0
Begun db = is_connecting db.meta.workflow_state ≡ false

begun_active : (paused : Bool) → is_connecting (settled_state paused WorkflowState.active) ≡ false
begun_active true = refl
begun_active false = refl

begun_attention :
    (paused : Bool) → is_connecting (settled_state paused WorkflowState.needs_attention) ≡ false
begun_attention true = refl
begun_attention false = refl

begun_initializing :
    (paused : Bool) → is_connecting (settled_state paused WorkflowState.initializing) ≡ false
begun_initializing true = refl
begun_initializing false = refl

Begun-pause : (role : String) (n : ℕ) (db : Db) → Begun (pause_repair role n db)
unfolding record_event set_workflow_state
Begun-pause role n db = begun_attention (is_paused db)

Begun-clear :
    (role : String) (kind : Kind) (n : ℕ) (db : Db)
    → Begun db
    → Begun (clear_pending role kind n db)
unfolding set_workflow_state
Begun-clear role kind n db h = cleared (
    role == "implementer"
    && kind == Kind.implementation
    && ltb 1 n
    && is_some db.meta.pending_repair_round)
  where
    cleared :
        (b : Bool)
        → Begun (
            if b
            then set_workflow_state WorkflowState.active
                (record db { meta = record db.meta { pending_repair_round = none } })
            else db)
    cleared true = begun_active (is_paused db)
    cleared false = h

Begun-add :
    (role : String) (kind : Kind) (n : ℕ) (id delivery_id : String) (db : Db)
    → Begun db
    → Begun (add_assignment role kind n id delivery_id db)
unfolding record_event
Begun-add role kind n id delivery_id db h = Begun-clear role kind n _ h

Begun-Respected : Respected Begun
unfolding set_workflow_state set_round
Begun-Respected = record {
  events = λ db e n h. h;
  activations = λ db rows h. h;
  assigned = λ role kind n id delivery_id db paused db' e h.
      elim (assign_tx-cases role kind n id delivery_id db paused db' e) [
        | inl done ↦ rw done (Begun-pause role n db)
        | inr done ↦ rw done (Begun-add role kind n id delivery_id db h)
      ];
  advanced = λ db n run h. begun_active (is_paused db);
}

module _ (run : Run) (task : Value) where
  Keeps-deliver_baselines :
      (roles : List String) → Keeps (Of Begun) (deliver_baselines run task roles)
  unfolding deliver_baselines keep_baseline
  Keeps-deliver_baselines [] = Keeps-pure tt
  Keeps-deliver_baselines (role ∷ rest) =
      Triple-then (Of Begun) _ _ (record { at = λ b h. h })
        (Triple-then _ _ _
          (Keeps-deliver Begun Begun-Respected.events run role "baseline" 1 false none)
          (Keeps-deliver_baselines rest))

  KeepsTx-decide_probe : (forced : List String) → KeepsTx Begun (decide_probe run task forced)
  KeepsTx-decide_probe forced =
      KeepsTx-if Begun Begun-Respected run (contains run.roles "probe") _ _
        (KeepsTx-bind Begun Begun-Respected run _ _
          (KeepsTx-record Begun Begun-Respected run
            (activation_of 1 (decide_initial_probe task (contains forced "probe"))))
          (λ u. KeepsTx-pure Begun Begun-Respected run _))
        (KeepsTx-pure Begun Begun-Respected run _)

  KeepsTx-first_decisions : KeepsTx Begun (first_decisions run task)
  unfolding first_decisions
  KeepsTx-first_decisions db =
      KeepsTx-bind Begun Begun-Respected run _ _
        (KeepsTx-lift Begun Begun-Respected run
          (retained_implementation_flow db.meta.implementation_flow))
        (λ flow.
          KeepsTx-bind Begun Begun-Respected run _ _
            (KeepsTx-lift Begun Begun-Respected run
              (retained_forced_specialists db.meta.forced_specialists run.roles))
            (λ forced.
              KeepsTx-bind Begun Begun-Respected run _ _ (KeepsTx-decide_probe forced)
                (λ probe. KeepsTx-pure Begun Begun-Respected run _)))
        db

  Keeps-activate : Keeps (Of Begun) (transact (Writes.modify activate))
  unfolding record_event set_workflow_state
  Keeps-activate = Triple-transact _ λ db sent u db' e h.
      let done : db' ≡ activate db = ground arith in rw done (begun_active (is_paused db))

  Keeps-start_workflow : Keeps (Of Begun) (start_workflow run task)
  unfolding start_workflow
  Keeps-start_workflow = Triple-then _ _ _ (Keeps-deliver_baselines run.roles) (
      Triple-then _ _ _ Keeps-activate (
        Triple-bind _ _ _
          (Keeps-transact Begun Begun-Respected run (first_decisions run task)
            KeepsTx-first_decisions)
          λ (flow, probe). Triple-then _ _ _ (Keeps-broadcast_workflow WorkflowState.active 1) (
            Triple-then _ _ _
              (Keeps-assign Begun Begun-Respected run "implementer" (initial_kind run task flow) 1)
              (Keeps-when (runs_probe probe) _
                (Keeps-assign Begun Begun-Respected run "probe" Kind.probe 1)))))

  begin_tx-Begun :
      (db : Db) → (begun : Bool) × (db' : Db) × (begin_tx db ≡ ok (begun, db')) × Begun db'
  unfolding begin_tx record_event set_workflow_state
  begin_tx-Begun db = elim (Bool-cases (is_connecting db.meta.workflow_state)) [
    | inl connecting ↦ (
      true,
      plain_event "workflow_started" "initializing"
          (set_workflow_state WorkflowState.initializing db),
      ground (arith, connecting),
      begun_initializing (is_paused db),
    )
    | inr begun ↦ (false, db, ground (arith, begun), begun)
  ]

  transact-eq :
      {A : Type 0} (tx : Writes.Tx A) (a : A) (db : Db) (b : Broker)
      → tx b.db ≡ ok (a, db)
      → transact tx b ≡ (ok a, record b { db = db })
  unfolding transact
  transact-eq tx a db b e = rw (e, transact) refl

  attempted-Begun : (b : Broker) → Begun ((transact begin_tx >>= if_begun run task) b).1.db
  unfolding ◌>>=◌
  attempted-Begun b =
      let (begun, db, e, h) = begin_tx-Begun b.db in
      let after : Broker = record b { db = db } in
      rw (transact-eq begin_tx begun db b e, ◌>>=◌)
        (Post-Of Begun (if_begun run task begun after).0 (if_begun run task begun after).1
          ((Keeps-when begun _ Keeps-start_workflow).at after h))

  idle : (b : Broker) → Begun b.db → maybe_start_workflow run task b ≡ (ok tt, b)
  unfolding maybe_start_workflow begin_tx ◌>>=◌ transact
  idle b h = elim (Bool-cases (all_connected run task b)) [
    | inl connected ↦ rw (connected, h, maybe_start_workflow, begin_tx, ◌>>=◌, transact) refl
    | inr missing ↦ rw (missing, maybe_start_workflow) refl
  ]

  attempt-eq :
      (b : Broker)
      → all_connected run task b ≡ true
      → maybe_start_workflow run task b ≡ (transact begin_tx >>= if_begun run task) b
  unfolding maybe_start_workflow
  attempt-eq b connected = rw (connected, maybe_start_workflow) refl

  missing-eq :
      (b : Broker) → all_connected run task b ≡ false → maybe_start_workflow run task b ≡ (ok tt, b)
  unfolding maybe_start_workflow
  missing-eq b missing = rw (missing, maybe_start_workflow) refl

  -- Whatever `maybe_start_workflow` did, and whether it returned or raised, calling it again at once
  -- does nothing: no baseline is delivered and nothing is assigned a second time.
  pub maybe_start_workflow-maybe_start_workflow :
      (b : Broker)
      → maybe_start_workflow run task (maybe_start_workflow run task b).1
        ≡ (ok tt, (maybe_start_workflow run task b).1)
  maybe_start_workflow-maybe_start_workflow b = elim (Bool-cases (all_connected run task b)) [
    | inl connected ↦
        let begun : Begun (maybe_start_workflow run task b).1.db =
          subst (λ x. Begun x.1.db) (sym (attempt-eq b connected)) (attempted-Begun b) in
        idle (maybe_start_workflow run task b).1 begun
    | inr missing ↦
        subst (λ x. maybe_start_workflow run task x.1 ≡ (ok tt, x.1)) (sym (missing-eq b missing))
          (missing-eq b missing)
  ]
