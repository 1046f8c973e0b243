-- ===== src/Broker/State.antt =====
-- The broker between two awaits: its database, the connected workers, and the frames written so far.
use pi_tmux_orchestrator.Prelude.{ℕ, String, Bool, Option, List}
use pi_tmux_orchestrator.Store.Rows.{
  Db, RoleState, WorkflowState, Kind, ReportAttempt, ReminderState,
}

-- A connected worker (`Client`); its streams are the transport below.
pub record Client : Type 0 where
  pub role : String
  pub generation : ℕ

-- A frame to a worker.
pub data Frame : Type 0 where
  response : (id : String) → (success : Bool) → (status : String) → Frame
  report_reminder : (assignment_id : String) → (resume_id : Option String) → Frame
  assignment :
      (delivery_id : String)
      → (assignment_id : String) → (round : ℕ) → Kind
      → (trigger : Bool) → Frame
  context :
      (id : String)
      → (binding : Option (String × Option String)) → (kind : String) → (round : ℕ)
      → (trigger : Bool) → Frame
  abort : (id : String) → Frame
  assignment_closed : (assignment_id report_id : String) → Frame

-- `assignment_attention_metadata` (worker_attention.py): what observers see of an assignment.
pub record AttentionMetadata : Type 0 where
  pub assignment_id : String
  pub assignment_kind : Kind
  pub settlement_count : ℕ
  pub report_attempt : ReportAttempt
  pub attention_reason : Option String
  pub reminder_state : ReminderState
  pub activity_phase : Option String

-- A frame to the observers; texts that only they see are left out.
pub data Notice : Type 0 where
  assignment_state : (role : String) → RoleState → Option AttentionMetadata → Notice
  attention : (role : String) → (assignment_id : String) → (reason : String) → Notice
  workflow : WorkflowState → (round : ℕ) → Notice
  lifecycle : (role : String) → RoleState → Notice
  report : (role : String) → (assignment_id : String) → (round : ℕ) → Notice

-- A response on the connection of an operator's command.
pub record Answer : Type 0 where
  pub id : String
  pub success : Bool
  pub status : String
  pub duplicate : Bool

-- What `_remember_report` reads of a report event.
pub record ReportEvent : Type 0 where
  pub id : String
  pub role : String
  pub round : ℕ

-- `sent` has the frames handed to the workers' sockets, also those whose `drain` then failed, which may
-- not arrive. `link` says of each coming write to a worker's or an operator's socket whether its `drain`
-- succeeds; past its end they do.
-- `baselines` has the roles of `worker_baselines`, and `answered` what operators were answered.
-- Of the two dicts of run states the keys are kept, of the dict of the latest reports the rounds;
-- `drawn` counts the tokens drawn so far.
pub record Broker : Type 0 where
  pub db : Db
  pub clients : List String
  pub link : List Bool
  pub sent : List (String × Frame)
  pub observed : List Notice
  pub pending_run_state : List String
  pub role_run_state : List String
  pub drawn : ℕ
  pub recent_reports : List ReportEvent
  pub latest_reports : List (String × ℕ)
  pub baselines : List String
  pub answered : List Answer
