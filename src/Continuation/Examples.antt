-- ===== src/Continuation/Examples.antt =====
-- Tests of the continuation policy.
use pi_tmux_orchestrator.Prelude.{◌≡◌, refl, true, none, some, [], ◌∷◌, contains}
use pi_tmux_orchestrator.Prelude.Result.{ok}
use pi_tmux_orchestrator.Prelude.Json.{get, keys_within, keys_include}
use pi_tmux_orchestrator.Prelude.Table.{exists}
use pi_tmux_orchestrator.Store.Rows.{Db, Kind, WorkflowState, RoleState}
use pi_tmux_orchestrator.Store.Samples.{sample, implementer_row, reviewer_row, first_assignment}
use pi_tmux_orchestrator.Continuation.Policy.{
  validate_repair_limit, read_policy, retained_repair_policy, distinct_rounds, continuation_status,
  repair_limit_reached, approved_repair_extension,
}
use pi_tmux_orchestrator.Continuation.Limit.{Grant, approved_repair_extension-Grant}

-- Round 2 was admitted, round 3 waits for the operator.
abbrev pub waiting : Db
waiting = record sample {
  meta = record sample.meta {
    workflow_state = WorkflowState.needs_attention;
    round = 3;
    pending_repair_round = some 3;
  };
  roles =
      record implementer_row { state = RoleState.idle; active_assignment_id = none }
      ∷ reviewer_row
      ∷ [];
  assignments = first_assignment ∷ record first_assignment { id = "a2"; round = 2 } ∷ [];
}

third_round_waits : repair_limit_reached "implementer" Kind.implementation 3 waiting ≡ ok true
unfolding repair_limit_reached continuation_status retained_repair_policy read_policy get
    keys_within keys_include validate_repair_limit distinct_rounds contains
third_round_waits = refl

extension : approved_repair_extension waiting ≡ ok (3, some 2)
unfolding approved_repair_extension continuation_status retained_repair_policy read_policy get
    keys_within keys_include validate_repair_limit distinct_rounds contains exists
extension = refl

approved_repair_extension-Grant_example : Grant waiting 3 (some 2)
approved_repair_extension-Grant_example = approved_repair_extension-Grant waiting extension
