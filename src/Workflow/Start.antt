-- ===== src/Workflow/Start.antt =====
-- `maybe_start_workflow` (broker.py).
use pi_tmux_orchestrator.Prelude.{
  String, Bool, true, false, ◌&&◌, Option, none, some, List, [], ◌∷◌, ◌==◌, String_eq,
  if◌then◌else◌, contains,
}
use pi_tmux_orchestrator.Prelude.Result.{ok}
use pi_tmux_orchestrator.Prelude.Json.{Value}
use pi_tmux_orchestrator.Store.Rows.{Db, Kind, WorkflowState}
use pi_tmux_orchestrator.Store.Writes
use pi_tmux_orchestrator.Store.Writes.{Tx, record_event, set_workflow_state}
use pi_tmux_orchestrator.Broker.State.{Broker}
use pi_tmux_orchestrator.Broker.Transport.{
  Exec, ◌>>=◌, ◌>>◌, pure, when, transact, broadcast_workflow,
}
use pi_tmux_orchestrator.Specialists.Decide.{Decision, decide_initial_probe, activation_of}
use pi_tmux_orchestrator.Specialists.Forced.{retained_forced_specialists}
use pi_tmux_orchestrator.Specialists.Activation.{record_specialist_activation}
use pi_tmux_orchestrator.Workflow.Deliver.{Run, deliver}
use pi_tmux_orchestrator.Workflow.Assign.{assign}
use pi_tmux_orchestrator.Workflow.Route.{retained_implementation_flow}

abbrev pub all_in : List String → List String → Bool
all_in [] names = true
all_in (x ∷ rest) names = contains names x && all_in rest names

abbrev pub is_connecting : WorkflowState → Bool
is_connecting WorkflowState.connecting = true
is_connecting _ = false

abbrev pub plain_event : String → String → Db → Db
plain_event event status db =
    record_event event
      (record {
        role = none;
        round_number = none;
        assignment_id = none;
        delivery_id = none;
        status = status;
      })
      db

-- Whether the workflow waited for its workers.
unfoldable pub begin_tx : Tx Bool
begin_tx db =
    if is_connecting db.meta.workflow_state
    then ok (
      true,
      plain_event "workflow_started" "initializing"
          (set_workflow_state WorkflowState.initializing db),
    )
    else ok (false, db)

abbrev pub activate : Db → Db
activate db = plain_event "workflow_active" "active" (set_workflow_state WorkflowState.active db)

abbrev pub runs_probe : Option Decision → Bool
runs_probe none = false
runs_probe (some d) = d.run

-- `task` is the text of the task, which the broker has in memory only.
module _ (run : Run) (task : Value) where
  -- set(self.clients) == set(self.manifest["roles"])
  abbrev pub all_connected : Broker → Bool
  all_connected b = all_in b.clients run.roles && all_in run.roles b.clients

  -- self.worker_baselines[role] = baseline
  unfoldable pub keep_baseline : String → Exec (Unit {0})
  keep_baseline role b = (ok tt, record b { baselines = role ∷ b.baselines })

  unfoldable pub deliver_baselines : List String → Exec (Unit {0})
  deliver_baselines [] = pure tt
  deliver_baselines (role ∷ rest) = do
    keep_baseline role
    deliver run role "baseline" 1 false none
    deliver_baselines rest

  abbrev pub decide_probe : List String → Tx (Option Decision)
  decide_probe forced =
      if contains run.roles "probe"
      then (let d = decide_initial_probe task (contains forced "probe") in
          Writes.◌>>◌ (record_specialist_activation (activation_of 1 d)) (Writes.pure (some d)))
      else Writes.pure none

  -- The retained flow, and the decision about the probe.
  unfoldable pub first_decisions : Tx (String × Option Decision)
  first_decisions db =
      Writes.◌>>=◌ (Writes.lift (retained_implementation_flow db.meta.implementation_flow))
        (λ flow.
          Writes.◌>>=◌
            (Writes.lift (retained_forced_specialists db.meta.forced_specialists run.roles))
            (λ forced. Writes.◌>>=◌ (decide_probe forced) λ probe. Writes.pure (flow, probe)))
        db

  abbrev pub initial_kind : String → Kind
  initial_kind flow = if flow == "phased" then Kind.plan else Kind.implementation

  unfoldable pub start_workflow : Exec (Unit {0})
  start_workflow = do
    deliver_baselines run.roles
    transact (Writes.modify activate)
    (flow, probe) ← transact first_decisions
    broadcast_workflow WorkflowState.active 1
    assign run "implementer" (initial_kind flow) 1
    when (runs_probe probe) (assign run "probe" Kind.probe 1)

  abbrev pub if_begun : Bool → Exec (Unit {0})
  if_begun begun = when begun start_workflow

  unfoldable pub maybe_start_workflow : Exec (Unit {0})
  maybe_start_workflow b = when (all_connected b) (transact begin_tx >>= if_begun) b
