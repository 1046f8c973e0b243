-- ===== src/Workflow/Route.antt =====
-- `route_report` (broker_workflow.py) and `_deliver_run_state`.
use pi_tmux_orchestrator.Prelude.{
  ℕ, ◌+◌, String, Bool, true, false, ◌&&◌, ◌||◌, Option, none, some, List, [], ◌∷◌, ◌++◌, map, leb,
  ◌==◌, String_eq, Option_eq, if◌then◌else◌, contains, is_some,
}
use pi_tmux_orchestrator.Prelude.Result.{Result, ok, err, orchestration_error, invalid_protocol}
use pi_tmux_orchestrator.Prelude.Json.{Value, text, array, Items, nil, cons}
use pi_tmux_orchestrator.Prelude.Table.{select}
use pi_tmux_orchestrator.Store.Rows.{Db, RoleRow, Activation, Kind, Kind_eq, WorkflowState}
use pi_tmux_orchestrator.Store.Writes
use pi_tmux_orchestrator.Store.Writes.{Tx, delete, record_event, set_workflow_state, set_round}
use pi_tmux_orchestrator.Broker.State.{Broker}
use pi_tmux_orchestrator.Broker.Transport.{
  Exec, ◌>>=◌, ◌>>◌, pure, when, transact, broadcast_workflow,
}
use pi_tmux_orchestrator.Attention.Handlers.{lift}
use pi_tmux_orchestrator.Roles.Contracts.{Specialist, specialist_of, specialist_kind, contract_of}
use pi_tmux_orchestrator.Specialists.Decide.{
  Decision, legacy_always_run, decide_specialist, decide_custom_specialist, activation_of,
}
use pi_tmux_orchestrator.Specialists.Forced.{retained_forced_specialists}
use pi_tmux_orchestrator.Specialists.Activation.{
  record_specialist_activation, public_specialist_activations,
}
use pi_tmux_orchestrator.Admission.Ledger.{admission_status}
use pi_tmux_orchestrator.Protocol.Body.{Body}
use pi_tmux_orchestrator.Workflow.Deliver.{
  Run, is_connected, is_pending, run_state_capsule, keep_run_state, deliver,
}
use pi_tmux_orchestrator.Workflow.Assign.{assign}
use pi_tmux_orchestrator.Workflow.Review.{configured, maybe_assign_reviewer}

-- dict.fromkeys(roles)
unfoldable pub unique : List String → List String
unfolding delete
unique [] = []
unique (x ∷ rest) = x ∷ delete (λ (y : String). y == x) (unique rest)

abbrev pub has_assignment : Option RoleRow → Bool
has_assignment none = false
has_assignment (some r) = is_some r.active_assignment_id

-- `_role_has_active_assignment`
unfoldable pub role_has_active_assignment : String → Db → Bool
unfolding select
role_has_active_assignment role db =
    has_assignment (select (λ (r : RoleRow). r.role == role) db.roles)

-- `retained_implementation_flow` (broker_store.py)
unfoldable pub retained_implementation_flow : Option String → Result String
retained_implementation_flow none = ok "single"
retained_implementation_flow (some flow) =
    if flow == "single" || flow == "phased" then ok flow else err orchestration_error

abbrev pub path_items : List String → Items
path_items [] = nil
path_items (path ∷ rest) = cons (text path) (path_items rest)

module _ (run : Run) where
  -- self.pending_run_state[recipient] = …
  unfoldable pub keep_pending : String → Exec (Unit {0})
  keep_pending role b = (ok tt, record b { pending_run_state = role ∷ b.pending_run_state })

  abbrev pub must_wait : String → Broker → Bool
  must_wait role b = is_pending run role b || role_has_active_assignment role b.db

  abbrev pub deliver_now : String → ℕ → Exec (Unit {0})
  deliver_now role round_number =
      keep_run_state run role >> deliver run role "run_state" round_number false none

  abbrev pub deliver_or_keep : String → ℕ → Bool → Exec (Unit {0})
  deliver_or_keep role round_number true = keep_pending role
  deliver_or_keep role round_number false = deliver_now role round_number

  unfoldable pub deliver_to : ℕ → String → Exec (Unit {0})
  deliver_to round_number role b =
      when (is_connected run role b) (deliver_or_keep role round_number (must_wait role b)) b

  unfoldable pub deliver_each : ℕ → List String → Exec (Unit {0})
  deliver_each round_number [] = pure tt
  deliver_each round_number (role ∷ rest) =
      deliver_to round_number role >> deliver_each round_number rest

  -- `_deliver_run_state`
  unfoldable pub deliver_run_state : List String → ℕ → Exec (Unit {0})
  deliver_run_state roles round_number =
      run_state_capsule run round_number >> deliver_each round_number (unique roles)

  -- A specialist of an old run always runs.
  abbrev pub legacy_decision : String → Decision
  legacy_decision name = record {
    role = name;
    run = true;
    rule = legacy_always_run;
    is_forced = false;
  }

  abbrev pub builtin_decision : Option Specialist → Value → Bool → Result Decision
  builtin_decision none paths is_forced = err orchestration_error
  builtin_decision (some s) paths is_forced = ok (decide_specialist s paths is_forced)

  -- The decision about a configured specialist, with its custom contract if it has one.
  abbrev pub decision_for : String → Option Specialist → Value → Bool → Result Decision
  decision_for name none paths is_forced = builtin_decision (specialist_of name) paths is_forced
  decision_for name (some contract) paths is_forced =
      if leb 7 run.version
      then decide_custom_specialist name contract paths is_forced
      else ok (legacy_decision name)

  abbrev pub add_activated : Decision → String → List String → List String
  add_activated d name more = if d.run then name ∷ more else more

  abbrev pub decide_one : ℕ → Value → List String → String → Tx (List String) → Tx (List String)
  decide_one round_number paths forced name others =
      Writes.◌>>=◌
        (Writes.lift
          (decision_for name (contract_of run.custom_contracts name) paths (contains forced name)))
        λ d.
          Writes.◌>>◌ (record_specialist_activation (activation_of round_number d))
            (Writes.◌>>=◌ others λ more. Writes.pure (add_activated d name more))

  -- The loop over the configured specialists: those without a decision get one.
  unfoldable pub decide_each :
      ℕ → Value → List String → List String → List String → Tx (List String)
  decide_each round_number paths forced existing [] = Writes.pure []
  decide_each round_number paths forced existing (name ∷ rest) =
      let others = decide_each round_number paths forced existing rest in
      if contains existing name then others else decide_one round_number paths forced name others

  abbrev pub all_configured : List String
  all_configured =
      configured run.roles ("probe" ∷ "playwright" ∷ "django" ∷ [])
      ++ map (λ item. item.0) run.custom_contracts

  -- The specialists that the implementer's report activates.
  unfoldable pub decide_all : ℕ → List String → Tx (List String)
  decide_all round_number changed_paths db =
      Writes.◌>>=◌ (Writes.lift (public_specialist_activations round_number db.activations))
        (λ existing.
          Writes.◌>>=◌
            (Writes.lift (retained_forced_specialists db.meta.forced_specialists run.roles))
            (λ forced.
              decide_each round_number (array (path_items changed_paths)) forced
                (map (λ (a : Activation). a.role) existing) all_configured))
        db

  abbrev pub kind_for : Option Specialist → Option Specialist → Result Kind
  kind_for (some contract) _ = ok (specialist_kind contract)
  kind_for none (some s) = ok (specialist_kind s)
  kind_for none none = err invalid_protocol

  -- The kind is that of the custom contract, or the specialist's own.
  unfoldable pub assign_each : ℕ → List String → Exec (Unit {0})
  assign_each round_number [] = pure tt
  assign_each round_number (name ∷ rest) = do
    kind ← lift (kind_for (contract_of run.custom_contracts name) (specialist_of name))
    assign run name kind round_number
    assign_each round_number rest

  unfoldable pub route_implementation : ℕ → Body → Exec (Unit {0})
  route_implementation round_number report = do
    activated ← transact (decide_all round_number report.changed_paths)
    deliver_run_state ("reviewer" ∷ activated) round_number
    assign_each round_number activated
    maybe_assign_reviewer run round_number

  abbrev pub flow_tx : Tx String
  flow_tx db = Writes.lift (retained_implementation_flow db.meta.implementation_flow) db

  unfoldable pub route_plan : ℕ → Exec (Unit {0})
  route_plan round_number = do
    deliver_run_state ("implementer" ∷ []) round_number
    flow ← transact flow_tx
    when (flow == "phased") (assign run "implementer" Kind.implementation round_number)

  unfoldable pub route_evidence : ℕ → Exec (Unit {0})
  route_evidence round_number = do
    deliver_run_state ("implementer" ∷ "reviewer" ∷ []) round_number
    maybe_assign_reviewer run round_number

  abbrev pub verdict_state : Bool → WorkflowState
  verdict_state true = WorkflowState.needs_attention
  verdict_state false = WorkflowState.ready

  abbrev pub verdict_event : Bool → String
  verdict_event true = "workflow_budget_paused"
  verdict_event false = "workflow_ready"

  abbrev pub verdict_status : Bool → String
  verdict_status true = "needs_attention"
  verdict_status false = "ready"

  abbrev pub approved : ℕ → Bool → Db → Db
  approved round_number paused db =
      record_event (verdict_event paused)
        (record {
          role = some "reviewer";
          round_number = some round_number;
          assignment_id = none;
          delivery_id = none;
          status = verdict_status paused;
        })
        (set_workflow_state (verdict_state paused) db)

  unfoldable pub approve_tx : ℕ → Tx Bool
  approve_tx round_number db = elim (admission_status db) [
    | err code ↦ err code
    | ok status ↦ ok (status.paused, approved round_number status.paused db)
  ]

  unfoldable pub route_approval : ℕ → Exec (Unit {0})
  route_approval round_number = do
    paused ← transact (approve_tx round_number)
    broadcast_workflow (verdict_state paused) round_number

  abbrev pub next_round : ℕ → Db → Db
  next_round round_number db = set_workflow_state WorkflowState.active (set_round round_number db)

  unfoldable pub route_changes : ℕ → Exec (Unit {0})
  route_changes round_number = do
    deliver_run_state ("implementer" ∷ []) round_number
    transact (Writes.modify (next_round (round_number + 1)))
    broadcast_workflow WorkflowState.active (round_number + 1)
    assign run "implementer" Kind.implementation (round_number + 1)

  abbrev pub is_custom : String → Bool
  is_custom role = is_some (contract_of run.custom_contracts role)

  abbrev pub is_approval : String → Body → Bool
  is_approval role report = role == "reviewer" && report.verdict == some "approved"

  unfoldable pub route_report : String → ℕ → Body → Exec (Unit {0})
  route_report role round_number report =
      if role == "probe" || is_custom role
      then route_evidence round_number
      else if role == "implementer" && report.kind == Kind.plan
      then route_plan round_number
      else if role == "implementer"
      then route_implementation round_number report
      else if role == "playwright" || role == "django"
      then route_evidence round_number
      else if is_approval role report
      then route_approval round_number
      else if role == "reviewer"
      then route_changes round_number
      else pure tt
