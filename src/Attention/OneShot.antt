-- ===== src/Attention/OneShot.antt =====
-- The automatic reminder is one-shot: the predicate on the assignments and the frames written, and what
-- the writes to the assignments keep of it.
use pi_tmux_orchestrator.Prelude.{
  ℕ, ◌≤◌, String, ◌≡◌, refl, ap, Bool, false, not, ◌&&◌, List, ◌==◌, arith, inl, inr, String_eq,
  Bool-cases,
}
use pi_tmux_orchestrator.Prelude.Result.{ok}
use pi_tmux_orchestrator.Prelude.Table.{All, All-update, count, update}
use pi_tmux_orchestrator.Store.Rows.{Db, Assignment, ReminderState, WorkflowState}
use pi_tmux_orchestrator.Store.Writes.{EventArguments, record_event, set_workflow_state}
use pi_tmux_orchestrator.Admission.Policy.{Limits}
use pi_tmux_orchestrator.Admission.Ledger.{Request, reserve_provider_turn}
use pi_tmux_orchestrator.Admission.Ceilings.{Outcome, replayed, full, fresh, reserve-Outcome}
use pi_tmux_orchestrator.Broker.State.{Client, Frame, report_reminder}
use pi_tmux_orchestrator.Broker.Rules.{Assertion}
use pi_tmux_orchestrator.Attention.Rows.{
  set_assignment, attention_waiting, attention_state, is_attention,
}
use pi_tmux_orchestrator.Attention.Handlers.{
  Signal, in_attention, settled, reserved_reminder, settle, deserves_nudge, turn_decision,
}

abbrev pub is_reminder_of : String → String × Frame → Bool
is_reminder_of id (role, report_reminder assignment_id resume_id) = assignment_id == id
is_reminder_of id (role, _) = false

-- How many reminders for the assignment were written to a worker.
abbrev pub reminders : String → List (String × Frame) → ℕ
reminders id = count (is_reminder_of id)

-- What the reminder state of an assignment says at most.
abbrev pub allowance : ReminderState → ℕ
allowance ReminderState.unreserved = 0
allowance _ = 1

abbrev pub Allowed : List (String × Frame) → Assignment → Type 0
Allowed sent a = reminders a.id sent ≤ allowance a.reminder_state

abbrev pub IsOneShot : Assertion
IsOneShot db sent = All (Allowed sent) db.assignments

-- What the helpers do to the table of assignments.
pub assignments-record_event :
    (event : String) (a : EventArguments) (db : Db)
    → (record_event event a db).assignments ≡ db.assignments
unfolding record_event
assignments-record_event event a db = refl

pub assignments-attention_state :
    (s : WorkflowState) (db : Db) → (attention_state s db).assignments ≡ db.assignments
unfolding set_workflow_state
assignments-attention_state s db = ground arith

pub assignments-attention_waiting :
    (client : Client) (a : Assignment) (db : Db)
    → (attention_waiting client a db).assignments
      ≡ update
          (λ (x : Assignment). x.id == a.id)
          (λ (x : Assignment). record x { resume_authorized = false })
          db.assignments
unfolding attention_waiting
assignments-attention_waiting client a db =
    rw (assignments-record_event, assignments-attention_state) refl

module _ (sent : List (String × Frame)) where
  -- A write that keeps the id and does not forget a reminder.
  pub IsOneShot-set :
      (id : String) (set : Assignment → Assignment) (db : Db)
      → ((x : Assignment)
          → ((set x).id ≡ x.id) × (allowance x.reminder_state ≤ allowance (set x).reminder_state))
      → IsOneShot db sent
      → IsOneShot (set_assignment id set db) sent
  IsOneShot-set id set db k h =
      All-update (Allowed sent) _ set db.assignments
        (λ x t p. rw ((k x).0) (omega (arith, (k x).1))) h

  pub IsOneShot-attention_waiting :
      (client : Client) (a : Assignment) (db : Db)
      → IsOneShot db sent
      → IsOneShot (attention_waiting client a db) sent
  IsOneShot-attention_waiting client a db h =
      rw assignments-attention_waiting (All-update (Allowed sent) _ _ db.assignments (λ x t p. p) h)

pub assignments-Outcome :
    (limits : Limits) (r : Request) (db : Db) {granted : Bool} {db' : Db}
    → Outcome limits r db granted db'
    → db'.assignments ≡ db.assignments
assignments-Outcome limits r db (replayed row s i g e) = rw e refl
assignments-Outcome limits r db (full s l g e) = ground arith
assignments-Outcome limits r db {granted} (fresh s l g e) = ground arith

pub assignments-reserve :
    (r : Request) (db : Db) {granted : Bool} {db' : Db}
    → reserve_provider_turn r db ≡ ok (granted, db')
    → db'.assignments ≡ db.assignments
assignments-reserve r db {granted} {db'} h =
    let (limits, p, enabled, o) = reserve-Outcome r db {granted = granted} {db' = db'} h in
    assignments-Outcome limits r db o

pub assignments-turn_decision :
    (client : Client) (m : Signal) (a : Assignment) (db : Db) {allowed : Bool} {db' : Db}
    → turn_decision client m a db ≡ ok (allowed, db')
    → db'.assignments ≡ db.assignments
assignments-turn_decision client m a db {allowed} {db'} h =
    elim (Bool-cases (is_attention a.report_attempt && not a.resume_authorized)) [
      | inl waits ↦ let same : db' ≡ db = ground arith in ap (λ (x : Db). x.assignments) same
      | inr asks ↦ assignments-reserve _ db {granted = allowed} {db' = db'} (rw asks at h)
    ]

module _ (client : Client) (sent : List (String × Frame)) (db : Db) (h : IsOneShot db sent) where
  pub waiting_in_attention :
      (a : Assignment) (reason : String)
      → IsOneShot (attention_waiting client a (set_assignment a.id (in_attention reason) db)) sent
  waiting_in_attention a reason =
      IsOneShot-attention_waiting sent client a (set_assignment a.id (in_attention reason) db)
        (IsOneShot-set sent a.id (in_attention reason) db (λ x. (refl, omega arith)) h)

  pub IsOneShot-settle : (m : Signal) (a : Assignment) → IsOneShot (settle client m a db) sent
  IsOneShot-settle m a =
      let counted = IsOneShot-set sent a.id (settled m.id a) db (λ x. (refl, omega arith)) h in
      elim (Bool-cases (deserves_nudge a)) [
        | inl nudged ↦ rw nudged (
            rw assignments-record_event (
              IsOneShot-set sent a.id reserved_reminder (set_assignment a.id (settled m.id a) db)
                (λ x. (refl, ground arith)) counted))
        | inr asked ↦ rw asked (
            IsOneShot-attention_waiting sent client a (set_assignment a.id (settled m.id a) db)
              counted)
      ]
