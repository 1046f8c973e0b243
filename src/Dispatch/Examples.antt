-- ===== src/Dispatch/Examples.antt =====
-- Tests of recovery and dispatch on the sample run.
use pi_tmux_orchestrator.Prelude.{
  ◌≡◌, refl, true, none, some, [], ◌∷◌, ◌==◌, String_eq, contains, inl,
}
use pi_tmux_orchestrator.Prelude.Result.{ok, err, unauthorized}
use pi_tmux_orchestrator.Prelude.Table.{select, select_last}
use pi_tmux_orchestrator.Store.Rows.{Db, Kind, Assignment, AssignmentState, WorkflowState, RoleRow}
use pi_tmux_orchestrator.Store.Samples.{sample, first_assignment, implementer_row}
use pi_tmux_orchestrator.Broker.State.{Broker, Client}
use pi_tmux_orchestrator.Roles.Contracts.{
  validate_assignment_kind, resolve_role_contract, validate_custom_contracts, bindings, permits,
}
use pi_tmux_orchestrator.Attention.Handlers.{Signal}
use pi_tmux_orchestrator.Workflow.Deliver.{Run}
use pi_tmux_orchestrator.Workflow.Recover.{unfinished, recover_role}
use pi_tmux_orchestrator.Workflow.InDoubt.{DoubtOutcome, recover_role-Doubted}
use pi_tmux_orchestrator.Control.Request.{Command, restart}
use pi_tmux_orchestrator.Control.Decide.{
  restarted, settle_tx, branch_tx, restarted_tx, restart_role, with_receipt, answered,
}
use pi_tmux_orchestrator.Dispatch.Message.{settlement, handle_message}
use pi_tmux_orchestrator.Prelude.Json.{object, end, text}
use pi_tmux_orchestrator.Workflow.Start.{maybe_start_workflow}
use pi_tmux_orchestrator.Workflow.StartedOnce.{maybe_start_workflow-maybe_start_workflow}
use pi_tmux_orchestrator.Dispatch.Connect.{
  Hello, connect_tx, found_in, connected, Admitted, connect_tx-Admitted,
}
use pi_tmux_orchestrator.Dispatch.Fenced.{settle_tx-handle_message}

abbrev idle : Broker
idle = record {
  db = sample;
  clients = "implementer" ∷ [];
  link = [];
  sent = [];
  observed = [];
  pending_run_state = [];
  role_run_state = [];
  drawn = 0;
  recent_reports = [];
  latest_reports = [];
  baselines = "implementer" ∷ [];
  answered = [];
}

abbrev sent_assignment : Assignment
sent_assignment = record first_assignment { state = AssignmentState.delivering }

abbrev interrupted : Broker
interrupted = record idle { db = record sample { assignments = sent_assignment ∷ [] } }

abbrev sample_run : Run
sample_run = record {
  roles = "implementer" ∷ "reviewer" ∷ [];
  version = 11;
  custom_contracts = [];
  retained_roles = [];
  token = λ n. "t0";
}

abbrev client : Client
client = record { role = "implementer"; generation = 1 }

is_unacknowledged : unfinished "implementer" interrupted.db ≡ some sent_assignment
unfolding unfinished select_last
is_unacknowledged = refl

is_permitted : validate_assignment_kind "implementer" Kind.implementation (object end) ≡ ok tt
unfolding validate_assignment_kind resolve_role_contract validate_custom_contracts bindings permits
is_permitted = refl

recover_role-Doubted_example :
    ((recover_role sample_run (ok tt) client true interrupted).1.sent ≡ [])
    × DoubtOutcome
        (validate_assignment_kind "implementer" Kind.implementation (object end))
        client
        sent_assignment
        interrupted.db
        (recover_role sample_run (ok tt) client true interrupted).0
        (recover_role sample_run (ok tt) client true interrupted).1.db
recover_role-Doubted_example =
    recover_role-Doubted sample_run (ok tt) client true interrupted sent_assignment
      is_unacknowledged (inl refl)

abbrev restart_implementer : Command
restart_implementer = record {
  id = "c1";
  token = "t";
  role = "implementer";
  action = restart;
  delivery = none;
  extension = 0;
}

abbrev after_restart : Db
after_restart =
    with_receipt restart_implementer (answered "accepted") (restart_role restart_implementer sample)

restart_commits :
    settle_tx restart_implementer implementer_row restarted sample
    ≡ ok (answered "accepted", after_restart)
unfolding settle_tx branch_tx restarted_tx
restart_commits = refl

has_row : select (λ (x : RoleRow). x.role == "implementer") sample.roles ≡ some implementer_row
unfolding select
has_row = refl

abbrev settled : Signal
settled = record { id = "s1"; assignment_id = "a1"; resume_id = none }

settle_tx-handle_message_example :
    handle_message sample_run client (settlement settled) (record idle { db = after_restart })
    ≡ (err unauthorized, record idle { db = after_restart })
settle_tx-handle_message_example =
    settle_tx-handle_message sample_run restart_implementer implementer_row implementer_row client
      (settlement settled) idle restart_commits has_row refl refl

-- Everybody is connected, and the workflow has not begun.
abbrev waiting : Broker
waiting = record idle {
  db = record sample { meta = record sample.meta { workflow_state = WorkflowState.connecting } };
  clients = "implementer" ∷ "reviewer" ∷ [];
}

maybe_start_workflow-maybe_start_workflow_example :
    maybe_start_workflow sample_run
      (text "task")
      (maybe_start_workflow sample_run (text "task") waiting).1
    ≡ (ok tt, (maybe_start_workflow sample_run (text "task") waiting).1)
maybe_start_workflow-maybe_start_workflow_example =
    maybe_start_workflow-maybe_start_workflow sample_run (text "task") waiting

abbrev hello : Hello
hello = record { id = "h1"; role = "implementer"; token = "t1"; generation = 1 }

hello_is_admitted :
    connect_tx [] hello sample
    ≡ ok (found_in implementer_row sample, connected hello implementer_row sample)
unfolding connect_tx select contains
hello_is_admitted = refl

connect_tx-Admitted_example : Admitted [] hello sample (connected hello implementer_row sample)
connect_tx-Admitted_example = connect_tx-Admitted [] hello sample hello_is_admitted
