-- ===== src/Workflow/Examples.antt =====
-- Tests of assignments on the sample run.
use pi_tmux_orchestrator.Prelude.{
  ℕ, String, ◌≡◌, refl, true, false, none, [], ◌∷◌, contains, arith, if◌then◌else◌, ◌==◌, ℕ_eq,
}
use pi_tmux_orchestrator.Prelude.Result.{ok}
use pi_tmux_orchestrator.Prelude.Json.{get, keys_within, keys_include}
use pi_tmux_orchestrator.Prelude.Table.{exists, count}
use pi_tmux_orchestrator.Store.Rows.{Kind}
use pi_tmux_orchestrator.Store.Writes.{record_event}
use pi_tmux_orchestrator.Store.Samples.{sample}
use pi_tmux_orchestrator.Broker.State.{Broker, assignment}
use pi_tmux_orchestrator.Broker.Transport.{◌>>=◌, transact, send}
use pi_tmux_orchestrator.Roles.Contracts.{
  validate_custom_contracts, bindings, resolve_role_contract, permits, validate_assignment_kind,
}
use pi_tmux_orchestrator.Continuation.Policy.{
  retained_repair_policy, read_policy, validate_repair_limit, distinct_rounds, continuation_status,
  repair_limit_reached,
}
use pi_tmux_orchestrator.Specialists.Activation.{public_specialist_activations}
use pi_tmux_orchestrator.Workflow.Deliver.{Run, draw, flush_pending_run_state}
use pi_tmux_orchestrator.Workflow.Assign.{
  assign_tx, add_assignment, assign, assign_connected, if_connected,
}
use pi_tmux_orchestrator.Workflow.Review.{
  configured, specialists, specialists_ready, is_due, review_tx, maybe_assign_reviewer,
}
use pi_tmux_orchestrator.Workflow.RepairRounds.{IsWithinLimit, assign_tx-IsWithinLimit}
use pi_tmux_orchestrator.Workflow.ReviewedOnce.{ReviewedOnce, maybe_assign_reviewer-ReviewedOnce}

sample-IsWithinLimit : IsWithinLimit 1 sample
unfolding retained_repair_policy read_policy validate_repair_limit distinct_rounds contains get
    keys_within keys_include
sample-IsWithinLimit = record { retained = refl; within = omega arith }

second_round_is_admitted :
    assign_tx "implementer" Kind.implementation 2 "a2" "d2" sample
    ≡ ok (false, add_assignment "implementer" Kind.implementation 2 "a2" "d2" sample)
unfolding assign_tx repair_limit_reached continuation_status retained_repair_policy read_policy
    validate_repair_limit distinct_rounds contains get keys_within keys_include exists
second_round_is_admitted = refl

assign_tx-IsWithinLimit_example :
    IsWithinLimit 1 (add_assignment "implementer" Kind.implementation 2 "a2" "d2" sample)
assign_tx-IsWithinLimit_example =
    assign_tx-IsWithinLimit "implementer" Kind.implementation 2 1 "a2" "d2" sample
      sample-IsWithinLimit second_round_is_admitted

-- The implementation of round 1 is reported, and both workers are connected.
abbrev reported : Broker
reported = record {
  db = record sample {
    reports =
        record {
          id = "p1";
          assignment_id = "a1";
          role = "implementer";
          round = 1;
          kind = Kind.implementation;
          verdict = none;
        }
        ∷ [];
  };
  clients = "implementer" ∷ "reviewer" ∷ [];
  link = [];
  sent = [];
  observed = [];
  pending_run_state = [];
  role_run_state = [];
  drawn = 0;
  recent_reports = [];
  latest_reports = [];
  baselines = [];
  answered = [];
}

abbrev token : ℕ → String
token n = if n == 0 then "t0" else if n == 1 then "t1" else "t2"

abbrev run : Run
run = record {
  roles = "implementer" ∷ "reviewer" ∷ [];
  version = 11;
  custom_contracts = [];
  retained_roles = [];
  token = token;
}

review_is_assigned :
    (maybe_assign_reviewer run 1 reported).1.sent
    ≡ ("reviewer", assignment "t1" "t0" 1 Kind.review true) ∷ []
unfolding maybe_assign_reviewer review_tx is_due specialists configured specialists_ready
    public_specialist_activations exists contains assign if_connected assign_connected
    flush_pending_run_state draw assign_tx repair_limit_reached record_event ◌>>=◌ transact send
    validate_assignment_kind resolve_role_contract validate_custom_contracts bindings permits
review_is_assigned = refl

sample-ReviewedOnce : ReviewedOnce sample.assignments
unfolding count
sample-ReviewedOnce r = ground arith

maybe_assign_reviewer-ReviewedOnce_example :
    ReviewedOnce (maybe_assign_reviewer run 1 reported).1.db.assignments
maybe_assign_reviewer-ReviewedOnce_example =
    maybe_assign_reviewer-ReviewedOnce run 1 reported sample-ReviewedOnce
