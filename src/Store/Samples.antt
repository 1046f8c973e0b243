-- ===== src/Store/Samples.antt =====
-- Rows for tests: a run with an implementer and a reviewer, on which the implementation is under way.
use pi_tmux_orchestrator.Prelude.{true, false, none, some, [], ◌∷◌}
use pi_tmux_orchestrator.Prelude.Json.{
  null, int, array, nil, object, field, end, absent, decoded, Value,
}
use pi_tmux_orchestrator.Store.Rows.{
  Usage, RoleRow, RoleState, Assignment, AssignmentState, ReminderState, ReportAttempt, Kind,
  WorkflowState, Db,
}

abbrev pub no_usage : Usage
no_usage = record {
  provider_calls = int 0;
  input_tokens = int 0;
  output_tokens = int 0;
  cache_read_tokens = int 0;
  cache_write_tokens = int 0;
  reasoning_tokens = null;
  cost_total = int 0;
  context_tokens = null;
  context_window = null;
  context_percent = null;
}

abbrev pub implementer_row : RoleRow
implementer_row = record {
  role = "implementer";
  auth_token = "t1";
  state = RoleState.active;
  connected = true;
  active_assignment_id = some "a1";
  generation = 1;
  usage = no_usage;
  activity = none;
  activity_sequence = 0;
}

abbrev pub reviewer_row : RoleRow
reviewer_row = record implementer_row {
  role = "reviewer";
  auth_token = "t2";
  state = RoleState.idle;
  active_assignment_id = none;
}

abbrev pub first_assignment : Assignment
first_assignment = record {
  id = "a1";
  role = "implementer";
  round = 1;
  kind = Kind.implementation;
  state = AssignmentState.accepted;
  delivery_id = "d1";
  boundary_effective = true;
  settlement_count = 0;
  last_settlement_id = none;
  reminder_state = ReminderState.unreserved;
  report_attempt = ReportAttempt.unattempted;
  attention_reason = none;
  last_phase = none;
  resume_id = none;
  resume_authorized = false;
}

-- A policy of at most two turns for the run and one for each assignment.
abbrev pub two_turns : Value
two_turns = object (
    field "version" (int 1)
      (field "limits" (object (field "run" (int 2) (field "assignment" (int 1) end))) end))

-- At most `limit` repair rounds.
abbrev pub repairs : Value → Value
repairs limit = object (field "version" (int 1) (field "max_repair_rounds" limit end))

abbrev pub sample : Db
sample = record {
  meta = record {
    schema_version = some 13;
    workflow_state = WorkflowState.active;
    round = 1;
    implementation_flow = some "single";
    forced_specialists = decoded (array nil);
    budget_policy = absent;
    call_admission_policy = decoded two_turns;
    call_admission_paused = some "0";
    continuation_policy = decoded (repairs (int 1));
    pending_repair_round = none;
    control_token = "cccccccccccccccccccccccccccccccc";
  };
  roles = implementer_row ∷ reviewer_row ∷ [];
  assignments = first_assignment ∷ [];
  reports = [];
  activations = [];
  admissions = [];
  guardrails = [];
  control_commands = [];
  events = [];
  last_sequence = 0;
}
