-- ===== src/Store/Examples.antt =====
-- Tests of the shared writes.
use pi_tmux_orchestrator.Prelude.{◌≡◌, refl, none, some}
use pi_tmux_orchestrator.Store.Writes.{EventArguments, record_event}
use pi_tmux_orchestrator.Store.Events.{IsLog, record_event-IsLog}
use pi_tmux_orchestrator.Store.Samples.{sample}

abbrev started : EventArguments
started = record {
  role = none;
  round_number = some 1;
  assignment_id = none;
  delivery_id = none;
  status = "connecting";
}

record_event-IsLog_example : IsLog (record_event "broker_started" started sample)
record_event-IsLog_example = record_event-IsLog "broker_started" started sample refl

first_event : (record_event "broker_started" started sample).last_sequence ≡ 1
unfolding record_event
first_event = refl
