-- ===== src/Attention/Examples.antt =====
-- Tests of the attention handlers on the sample run.
use pi_tmux_orchestrator.Prelude.{◌≤◌, String, ◌≡◌, refl, true, none, [], ◌∷◌, List, Bool, false}
use pi_tmux_orchestrator.Prelude.Table.{All, select, update, insert, count, exists}
use pi_tmux_orchestrator.Store.Rows.{Assignment, Db}
use pi_tmux_orchestrator.Store.Samples.{sample, first_assignment}
use pi_tmux_orchestrator.Broker.State.{Broker, Client, response, report_reminder}
use pi_tmux_orchestrator.Broker.Transport.{◌>>=◌, transact, catch, send, broadcast}
use pi_tmux_orchestrator.Attention.Rows.{active_attention_assignment}
use pi_tmux_orchestrator.Attention.Handlers.{
  Signal, handle_settlement, settlement_tx, broadcast_assignment_state, send_reminder,
  provider_turn_tx, turn_for, finish_turn, turn_event,
}
use pi_tmux_orchestrator.Attention.OneShot.{reminders, allowance}
use pi_tmux_orchestrator.Attention.History.{WorkerFrame, serve_all, reminder_once, message}
use pi_tmux_orchestrator.Admission.Policy.{retained_call_policy, call_policy}
use pi_tmux_orchestrator.Admission.Ledger.{
  reserve_provider_turn, decide, admission_status, within_ceilings, admission_row,
}
use pi_tmux_orchestrator.Admission.Ceilings.{recorded}
use pi_tmux_orchestrator.Attention.Inversion.{Fenced, turned}
use pi_tmux_orchestrator.Attention.Turns.{
  turn_request, IsParked, provider_turn_granted, provider_turn_denied,
}
use pi_tmux_orchestrator.Prelude.Result.{ok}
use pi_tmux_orchestrator.Workflow.Deliver.{Run}
use pi_tmux_orchestrator.Dispatch.Message.{settlement, recovery_turn}
use pi_tmux_orchestrator.Store.Writes.{record_event, delete}

abbrev idle_broker : Broker
idle_broker = record {
  db = sample;
  clients = "implementer" ∷ "reviewer" ∷ [];
  link = [];
  sent = [];
  observed = [];
  pending_run_state = [];
  role_run_state = [];
  drawn = 0;
  recent_reports = [];
  latest_reports = [];
  baselines = [];
  answered = [];
}

abbrev sample_run : Run
sample_run = record {
  roles = "implementer" ∷ "reviewer" ∷ [];
  version = 11;
  custom_contracts = [];
  retained_roles = [];
  token = λ n. "t0";
}

abbrev implementer : Client
implementer = record { role = "implementer"; generation = 1 }

abbrev signal : String → Signal
signal id = record { id = id; assignment_id = "a1"; resume_id = none }

abbrev settled_twice : List (Client × WorkerFrame)
settled_twice =
    (implementer, message (settlement (signal "s1")))
    ∷ (implementer, message (recovery_turn (signal "t1")))
    ∷ (implementer, message (settlement (signal "s2")))
    ∷ []

reminder_once_example :
    All
      (λ (a : Assignment).
        (reminders a.id (serve_all sample_run settled_twice idle_broker).sent ≤ 1)
        × (reminders a.id (serve_all sample_run settled_twice idle_broker).sent
            ≤ allowance a.reminder_state))
      (serve_all sample_run settled_twice idle_broker).db.assignments
reminder_once_example = reminder_once sample_run settled_twice idle_broker (tt, (tt, (tt, tt))) refl

abbrev granted_db : Db
granted_db =
    turn_event implementer first_assignment true
      (recorded (turn_request implementer (signal "p1") first_assignment) true sample)

first_settlement_reminds :
    (handle_settlement implementer (signal "s1") idle_broker).1.sent
    ≡ ("implementer", response "s1" true "recorded")
      ∷ ("implementer", report_reminder "a1" none)
      ∷ []
unfolding handle_settlement settlement_tx active_attention_assignment select update record_event
    ◌>>=◌ transact catch send broadcast broadcast_assignment_state send_reminder
first_settlement_reminds = refl

turn_granted :
    provider_turn_tx implementer (signal "p1") sample ≡ ok ((first_assignment, true), granted_db)
unfolding provider_turn_tx turn_for finish_turn active_attention_assignment reserve_provider_turn
    retained_call_policy call_policy select decide admission_status within_ceilings count
    record_event delete exists
turn_granted = refl

provider_turn_granted_example :
    Fenced implementer (signal "p1") sample first_assignment
    × (◌≡◌ {A = Bool} false false)
    × (granted_db.admissions
        ≡ insert
            (admission_row (turn_request implementer (signal "p1") first_assignment) true)
            sample.admissions)
provider_turn_granted_example = provider_turn_granted implementer (signal "p1") sample turn_granted

abbrev denied_db : Db
denied_db =
    turned implementer first_assignment false
      (recorded (turn_request implementer (signal "p2") first_assignment) false granted_db)

turn_denied :
    provider_turn_tx implementer (signal "p2") granted_db
    ≡ ok ((first_assignment, false), denied_db)
unfolding provider_turn_tx turn_for finish_turn active_attention_assignment reserve_provider_turn
    retained_call_policy call_policy select decide admission_status within_ceilings count
    record_event exists
turn_denied = refl

provider_turn_denied_example : IsParked implementer first_assignment denied_db
provider_turn_denied_example = provider_turn_denied implementer (signal "p2") granted_db turn_denied
