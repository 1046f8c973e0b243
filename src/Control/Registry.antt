-- ===== src/Control/Registry.antt =====
-- The registry of commands and the control token are written by receipts only (broker_control.py).
use pi_tmux_orchestrator.Prelude.{
  ℕ, String, ◌≡◌, refl, Bool, true, false, none, List, [], ◌∷◌, arith, inl, inr, Bool-cases,
  String_eq,
}
use pi_tmux_orchestrator.Prelude.Result.{ok, Result-cases}
use pi_tmux_orchestrator.Prelude.Json.{int}
use pi_tmux_orchestrator.Prelude.Table.{insert}
use pi_tmux_orchestrator.Store.Rows.{Db, RoleRow, RoleState, ControlCommand, Kind}
use pi_tmux_orchestrator.Store.Writes.{record_event, set_workflow_state, set_round}
use pi_tmux_orchestrator.Broker.State.{Broker, Answer}
use pi_tmux_orchestrator.Broker.Rules.{Assertion, Holds, Post, Keeps}
use pi_tmux_orchestrator.Admission.Ledger.{extend_call_allowance}
use pi_tmux_orchestrator.Admission.Extension.{extend_outcome}
use pi_tmux_orchestrator.Continuation.Policy.{approved_repair_extension}
use pi_tmux_orchestrator.Worker.Delivery.{mark_handover_tx}
use pi_tmux_orchestrator.Workflow.Assign.{add_assignment}
use pi_tmux_orchestrator.Workflow.Routing.{Respected}
use pi_tmux_orchestrator.Workflow.Verdict.{assign_tx-cases}
use pi_tmux_orchestrator.Control.Request.{Command}
use pi_tmux_orchestrator.Control.Decide.{
  Branch, handover_failed, extended, unreachable, repaired, busy, reopened, guided, aborted,
  restarted, branch_tx, handover_failed_tx, extended_tx, repaired_tx, reopened_tx, guided_tx,
  restarted_tx, Outcome, authorize, guide, is_handing_over, is_conflict, event_for, settle_tx,
  command_row, with_receipt,
}
use pi_tmux_orchestrator.Control.Handle.{send_raw}

-- What is said of the registry and the control token only.
abbrev pub OfRegistry : (List ControlCommand → String → Type 0) → Db → Type 0
OfRegistry R db = R db.control_commands db.meta.control_token

registry-add :
    (role : String) (kind : Kind) (n : ℕ) (id delivery_id : String) (db : Db)
    → ((add_assignment role kind n id delivery_id db).control_commands ≡ db.control_commands)
      × ((add_assignment role kind n id delivery_id db).meta.control_token ≡ db.meta.control_token)
unfolding record_event set_workflow_state
registry-add role kind n id delivery_id db = (ground arith, ground arith)

pub Keeps-send_raw : {I : Assertion} (answer : Answer) → Keeps I (send_raw answer)
unfolding send_raw
Keeps-send_raw {I} answer = record { at = λ b h. written b b.link refl h }
  where
    written :
        (b : Broker) (link : List Bool)
        → b.link ≡ link
        → Holds I b
        → Post (λ _. I) I (send_raw answer b).0 (send_raw answer b).1
    written b [] e h = rw (e, send_raw) h
    written b (true ∷ rest) e h = rw (e, send_raw) h
    written b (false ∷ rest) e h = rw (e, send_raw) h

-- The registry and the token are the same.
abbrev pub SameRegistry : Db → Db → Type 0
SameRegistry db db' =
    (db'.control_commands ≡ db.control_commands) × (db'.meta.control_token ≡ db.meta.control_token)

handover_failed_tx-SameRegistry :
    (c : Command) (s : RoleState) (db : Db) {outcome : Outcome} {db' : Db}
    → handover_failed_tx c s db ≡ ok (outcome, db')
    → SameRegistry db db'
unfolding handover_failed_tx mark_handover_tx record_event set_workflow_state
handover_failed_tx-SameRegistry c s db {outcome} {db'} h = elim (Bool-cases (is_handing_over s)) [
  | inl under_way ↦ (ground (arith, under_way), ground (arith, under_way))
  | inr over ↦ (ground (arith, over), ground (arith, over))
]

extended_tx-SameRegistry :
    (c : Command) (db : Db) {outcome : Outcome} {db' : Db}
    → extended_tx c db ≡ ok (outcome, db')
    → SameRegistry db db'
unfolding extended_tx record_event
extended_tx-SameRegistry c db {outcome} {db'} h =
    elim (Result-cases (extend_call_allowance (int c.extension) db)) [
      | inr (code, e) ↦ elim (Bool-cases (is_conflict code)) [
        | inl refused ↦ (ground (arith, e, refused), ground (arith, e, refused))
        | inr other ↦ absurd (ground (arith, e, other))
      ]
      | inl ((u, mid), e) ↦
          let (extra, limits, i, q, enabled, paused, done, read) =
            extend_outcome (int c.extension) db {db' = mid} e in
          let last : db' ≡ event_for "call_allowance_extended" c none "operator_approved" mid =
            ground (arith, e) in
          rw (last, done) (refl, refl)
    ]

repaired_tx-SameRegistry :
    (c : Command) (db : Db) {outcome : Outcome} {db' : Db}
    → repaired_tx c db ≡ ok (outcome, db')
    → SameRegistry db db'
unfolding repaired_tx record_event set_workflow_state
repaired_tx-SameRegistry c db {outcome} {db'} h =
    elim (Result-cases (approved_repair_extension db)) [
      | inr (code, e) ↦ elim (Bool-cases (is_conflict code)) [
        | inl refused ↦ (ground (arith, e, refused), ground (arith, e, refused))
        | inr other ↦ absurd (ground (arith, e, other))
      ]
      | inl ((n, limit), e) ↦ (ground (arith, e), ground (arith, e))
    ]

authorize-SameRegistry : (c : Command) (db : Db) → SameRegistry db (authorize c db)
authorize-SameRegistry c db = (ground arith, ground arith)

guide-SameRegistry : (c : Command) (db : Db) → SameRegistry db (guide c db)
unfolding set_workflow_state
guide-SameRegistry c db = (ground arith, ground arith)

branch_tx-SameRegistry :
    (c : Command) (r : RoleRow) (branch : Branch) (db : Db) {outcome : Outcome} {db' : Db}
    → branch_tx c r branch db ≡ ok (outcome, db')
    → SameRegistry db db'
unfolding branch_tx reopened_tx guided_tx restarted_tx record_event set_workflow_state set_round
branch_tx-SameRegistry c r handover_failed db {outcome} {db'} h =
    handover_failed_tx-SameRegistry c r.state db {outcome = outcome} h
branch_tx-SameRegistry c r extended db {outcome} {db'} h =
    extended_tx-SameRegistry c db {outcome = outcome} h
branch_tx-SameRegistry c r unreachable db {outcome} {db'} h = (ground arith, ground arith)
branch_tx-SameRegistry c r repaired db {outcome} {db'} h =
    repaired_tx-SameRegistry c db {outcome = outcome} h
branch_tx-SameRegistry c r busy db {outcome} {db'} h = (ground arith, ground arith)
branch_tx-SameRegistry c r reopened db {outcome} {db'} h = (ground arith, ground arith)
branch_tx-SameRegistry c r guided db {outcome} {db'} h =
    let done : db' ≡ guide c db = ground arith in rw done (guide-SameRegistry c db)
branch_tx-SameRegistry c r aborted db {outcome} {db'} h = (ground arith, ground arith)
branch_tx-SameRegistry c r restarted db {outcome} {db'} h = (ground arith, ground arith)

-- A command that commits adds its receipt, and nothing else, to the registry.
pub settle_tx-registry :
    (c : Command) (r : RoleRow) (branch : Branch) (db : Db) {outcome : Outcome} {db' : Db}
    → settle_tx c r branch db ≡ ok (outcome, db')
    → (db'.control_commands ≡ insert (command_row c outcome.status) db.control_commands)
      × (db'.meta.control_token ≡ db.meta.control_token)
unfolding settle_tx record_event
settle_tx-registry c r branch db {outcome} {db'} h = elim (Result-cases (branch_tx c r branch db)) [
  | inr (code, e) ↦ absurd (ground (arith, e))
  | inl ((o, mid), e) ↦
      let (commands, token) = branch_tx-SameRegistry c r branch db {outcome = o} {db' = mid} e in
      let same : outcome ≡ o = ground (arith, e) in
      let done : db' ≡ with_receipt c o mid = ground (arith, e) in
      rw (done, same, commands, token) (refl, refl)
]

module _ (R : List ControlCommand → String → Type 0) where
  pub Registry-Respected : Respected (OfRegistry R)
  unfolding set_workflow_state set_round record_event
  Registry-Respected = record {
    events = λ db e n h. h;
    activations = λ db rows h. h;
    assigned = λ role kind n id delivery_id db paused db' e h.
        elim (assign_tx-cases role kind n id delivery_id db paused db' e) [
          | inl done ↦ rw done h
          | inr done ↦
              let (commands, token) = registry-add role kind n id delivery_id db in
              rw (done, commands, token) h
        ];
    advanced = λ db n run h. h;
  }
