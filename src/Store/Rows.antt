-- ===== src/Store/Rows.antt =====
-- The tables of `initialize_broker_database` (broker_store.py). Timestamps and the columns that only
-- the dashboard reads are left out; the value 'none' of a column is spelled `unreserved` and
-- `unattempted`, and JSON columns of `meta` are kept decoded.
use pi_tmux_orchestrator.Prelude.{ℕ, String, Bool, true, false, Option, List, ◌≡◌, ◌↔◌, arith, Eq}
use pi_tmux_orchestrator.Prelude.Json.{Value, Stored}

pub data RoleState : Type 0 where
  idle active waiting disconnected restarting recovering uncertain : RoleState

pub data WorkflowState : Type 0 where
  starting connecting initializing active routing ready needs_attention uncertain : WorkflowState

pub data AssignmentState : Type 0 where
  delivering accepted uncertain completed : AssignmentState

pub data ReminderState : Type 0 where
  unreserved reserved used : ReminderState

pub data ReportAttempt : Type 0 where
  unattempted rejected attention accepted : ReportAttempt

pub data Kind : Type 0 where
  plan implementation review probe playwright django : Kind

abbrev pub kind_beq : Kind → Kind → Bool
kind_beq plan plan = true
kind_beq implementation implementation = true
kind_beq review review = true
kind_beq probe probe = true
kind_beq playwright playwright = true
kind_beq django django = true
kind_beq _ _ = false

pub kind_beq_iff : (a b : Kind) → (kind_beq a b ≡ true) ↔ (a ≡ b)
kind_beq_iff a b = ground arith

instance abbrev pub Kind_eq : Eq Kind
Kind_eq = record { equal = kind_beq; equal_iff = kind_beq_iff }

-- The provider-usage columns, as the numbers that the worker sent; `null` is SQL's NULL.
pub record Usage : Type 0 where
  pub provider_calls : Value
  pub input_tokens : Value
  pub output_tokens : Value
  pub cache_read_tokens : Value
  pub cache_write_tokens : Value
  pub reasoning_tokens : Value
  pub cost_total : Value
  pub context_tokens : Value
  pub context_window : Value
  pub context_percent : Value

pub record RoleRow : Type 0 where
  pub role : String
  pub auth_token : String
  pub state : RoleState
  pub connected : Bool
  pub active_assignment_id : Option String
  pub generation : ℕ
  pub usage : Usage
  pub activity : Option String
  pub activity_sequence : ℕ

pub record Assignment : Type 0 where
  pub id : String
  pub role : String
  pub round : ℕ
  pub kind : Kind
  pub state : AssignmentState
  pub delivery_id : String
  pub boundary_effective : Bool
  pub settlement_count : ℕ
  pub last_settlement_id : Option String
  pub reminder_state : ReminderState
  pub report_attempt : ReportAttempt
  pub attention_reason : Option String
  pub last_phase : Option String
  pub resume_id : Option String
  pub resume_authorized : Bool

pub record Report : Type 0 where
  pub id : String
  pub assignment_id : String
  pub role : String
  pub round : ℕ
  pub kind : Kind
  pub verdict : Option String

pub record Activation : Type 0 where
  pub role : String
  pub round : ℕ
  pub decision : String
  pub rule_id : String
  pub forced : Bool

-- A row of `provider_admissions` (call_admission.py).
pub record Admission : Type 0 where
  pub id : String
  pub role : String
  pub assignment_id : String
  pub generation : ℕ
  pub resume_id : Option String
  pub granted : Bool

pub record Guardrail : Type 0 where
  pub assignment_id : String
  pub role : String
  pub level : String
  pub metric : String
  pub observed : Value
  pub threshold : Value

-- A row of `control_commands`: the receipt of an operator's command.
pub record ControlCommand : Type 0 where
  pub id : String
  pub action : String
  pub role : String
  pub delivery : Option String
  pub status : String

pub record Event : Type 0 where
  pub sequence : ℕ
  pub event : String
  pub role : Option String
  pub round : Option ℕ
  pub assignment_id : Option String
  pub delivery_id : Option String
  pub status : String

-- The `meta` table; `workflow_state`, `round` and `control_token` have a row from the
-- start.
pub record Meta : Type 0 where
  pub schema_version : Option ℕ
  pub workflow_state : WorkflowState
  pub round : ℕ
  pub implementation_flow : Option String
  pub forced_specialists : Stored
  pub budget_policy : Stored
  pub call_admission_policy : Stored
  pub call_admission_paused : Option String
  pub continuation_policy : Stored
  pub pending_repair_round : Option ℕ
  pub control_token : String

pub record Db : Type 0 where
  pub meta : Meta
  pub roles : List RoleRow
  pub assignments : List Assignment
  pub reports : List Report
  pub activations : List Activation
  pub admissions : List Admission
  pub guardrails : List Guardrail
  pub control_commands : List ControlCommand
  pub events : List Event
  pub last_sequence : ℕ
