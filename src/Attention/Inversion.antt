-- ===== src/Attention/Inversion.antt =====
-- What each transaction of broker_attention.py did, when it committed.
use pi_tmux_orchestrator.Prelude.{
  String, ◌≡◌, ap, subst, ◌∙◌, Bool, true, not, ◌&&◌, some, ◌==◌, arith, String_eq, ℕ_eq, Option_eq,
  if◌then◌else◌, inl, inr, Option-cases,
}
use mathlib.Core.Path.{subst₂}
use pi_tmux_orchestrator.Prelude.Result.{ok}
use pi_tmux_orchestrator.Prelude.Table.{select}
use pi_tmux_orchestrator.Store.Rows.{Db, RoleRow, Assignment}
use pi_tmux_orchestrator.Store.Writes
use pi_tmux_orchestrator.Broker.State.{Client}
use pi_tmux_orchestrator.Attention.Rows.{
  active_attention_assignment, is_candidate, holds, set_assignment, set_role, attention_waiting,
  is_unattempted, is_attention, is_reserved,
}
use pi_tmux_orchestrator.Attention.Handlers.{
  Signal, active, rejected_attempt, rejected_report_tx, in_attention, attention_tx, settle,
  settlement_tx, Settlement, used_reminder, deserves_nudge, turn_decision, turn_event, finish_turn,
  turn_for, provider_turn_tx, recovery_turn_tx, active_role,
}

-- The fence passed: the row is in the table, is open, is the role's active assignment, and the
-- client's generation and the resume identity are the retained ones.
pub record Fenced (client : Client) (m : Signal) (db : Db) (a : Assignment) : Type 0 where
  pub found : select (is_candidate m.assignment_id) db.assignments ≡ some a
  pub owner : RoleRow
  pub held : select (holds client.role a.id) db.roles ≡ some owner
  pub current : (owner.generation == client.generation) ≡ true
  pub resumed : (a.resume_id == m.resume_id) ≡ true

module _ (client : Client) (m : Signal) (db : Db) where
  pub active-Fenced :
      {a : Assignment} {mid : Db}
      → active client m db ≡ ok (a, mid)
      → (mid ≡ db) × Fenced client m db a
  unfolding active_attention_assignment
  active-Fenced {a} {mid} h =
      elim (Option-cases (select (is_candidate m.assignment_id) db.assignments)) [
        | inl missing ↦ absurd (ground arith)
        | inr (row, found) ↦ elim (Option-cases (select (holds client.role row.id) db.roles)) [
          | inl lost ↦ absurd (ground arith)
          | inr (owner, held) ↦
              let same : a ≡ row = ground arith in
              (
                ground arith,
                record {
                  found = rw same found;
                  owner = owner;
                  held = rw same held;
                  current = ground arith;
                  resumed = ground arith;
                },
              )
        ]
      ]

  pub rejected_report_tx-eq :
      {db' : Db}
      → rejected_report_tx client m db ≡ ok (tt, db')
      → (a : Assignment) × Fenced client m db a
        × (db' ≡ (
            if is_unattempted a.report_attempt
            then set_assignment a.id rejected_attempt db
            else db))
  unfolding rejected_report_tx
  rejected_report_tx-eq {db'} h =
      let (a, mid, p, q) = Writes.bind-eq-ok (active client m) _ db {b = tt} {db' = db'} h in
      let (same, fence) = active-Fenced {a = a} {mid = mid} p in (a, fence, ground arith)

  pub attention_tx-eq :
      (reason : String) {a : Assignment} {duplicate : Bool} {db' : Db}
      → attention_tx client m reason db ≡ ok ((a, duplicate), db')
      → Fenced client m db a
        × (duplicate ≡ is_attention a.report_attempt && not a.resume_authorized)
        × (db' ≡ (
            if duplicate
            then db
            else attention_waiting client a (set_assignment a.id (in_attention reason) db)))
  unfolding attention_tx
  attention_tx-eq reason {a} {duplicate} {db'} h =
      let (row, mid, p, q) =
        Writes.bind-eq-ok (active client m) _ db {b = (a, duplicate)} {db' = db'} h in
      let (same, fence) = active-Fenced {a = row} {mid = mid} p in
      let e : row ≡ a = ground arith in (rw (← e) fence, ground arith, ground arith)

  pub settlement_tx-eq :
      {s : Settlement} {db' : Db}
      → settlement_tx client m db ≡ ok (s, db')
      → Fenced client m db s.assignment
        × (s.duplicate ≡ s.assignment.last_settlement_id == some m.id)
        × (s.nudge ≡ not s.duplicate && deserves_nudge s.assignment)
        × (db' ≡ (if s.duplicate then db else settle client m s.assignment db))
  unfolding settlement_tx
  settlement_tx-eq {s} {db'} h =
      let (row, mid, p, q) = Writes.bind-eq-ok (active client m) _ db {b = s} {db' = db'} h in
      let (same, fence) = active-Fenced {a = row} {mid = mid} p in
      let e : row ≡ s.assignment = ground arith in
      (rw (← e) fence, ground arith, ground arith, ground arith)

  pub recovery_turn_tx-eq :
      {a : Assignment} {allowed : Bool} {db' : Db}
      → recovery_turn_tx client m db ≡ ok ((a, allowed), db')
      → Fenced client m db a
        × (allowed ≡ is_reserved a.reminder_state && not (is_attention a.report_attempt))
        × (db' ≡ (
            if allowed
            then set_role client.role active_role (set_assignment a.id used_reminder db)
            else attention_waiting client a db))
  unfolding recovery_turn_tx
  recovery_turn_tx-eq {a} {allowed} {db'} h =
      let (row, mid, p, q) =
        Writes.bind-eq-ok (active client m) _ db {b = (a, allowed)} {db' = db'} h in
      let (same, fence) = active-Fenced {a = row} {mid = mid} p in
      let e : row ≡ a = ground arith in (rw (← e) fence, ground arith, ground arith)

-- The database after the ledger has decided.
abbrev pub turned : Client → Assignment → Bool → Db → Db
turned client a allowed decided = turn_event client a allowed (
    if allowed
    then decided
    else attention_waiting client a (set_assignment a.id (in_attention "blocked") decided))

module _ (client : Client) (m : Signal) where
  finish_turn-eq :
      (row : Assignment) (answer : Bool) (decided : Db) {a : Assignment} {allowed : Bool} {db' : Db}
      → finish_turn client row answer decided ≡ ok ((a, allowed), db')
      → (row ≡ a) × (answer ≡ allowed) × (db' ≡ turned client a allowed decided)
  unfolding finish_turn
  finish_turn-eq row answer decided {a} {allowed} {db'} h = ground arith

  turn_for-eq :
      (row : Assignment) (db : Db) {a : Assignment} {allowed : Bool} {db' : Db}
      → turn_for client m row db ≡ ok ((a, allowed), db')
      → (decided : Db) × (row ≡ a)
        × (turn_decision client m row db ≡ ok (allowed, decided))
        × (db' ≡ turned client a allowed decided)
  unfolding turn_for
  turn_for-eq row db {a} {allowed} {db'} h =
      let (answer, decided, p, q) =
        Writes.bind-eq-ok (turn_decision client m row) (finish_turn client row) db
          {b = (a, allowed)} {db' = db'} h in
      let (e, f, g) = finish_turn-eq row answer decided {a = a} {allowed = allowed} {db' = db'} q in
      (decided, e, p ∙ ap (λ (x : Bool). ok (x, decided)) f, g)

  pub provider_turn_tx-eq :
      (db : Db) {a : Assignment} {allowed : Bool} {db' : Db}
      → provider_turn_tx client m db ≡ ok ((a, allowed), db')
      → (decided : Db) × Fenced client m db a
        × (turn_decision client m a db ≡ ok (allowed, decided))
        × (db' ≡ turned client a allowed decided)
  unfolding provider_turn_tx
  provider_turn_tx-eq db {a} {allowed} {db'} h =
      let (row, mid, p, q) =
        Writes.bind-eq-ok (active client m) (turn_for client m) db {b = (a, allowed)} {db' = db'}
          h in
      let (same, fence) = active-Fenced client m db {a = row} {mid = mid} p in
      let (decided, e, d, t) = turn_for-eq row mid {a = a} {allowed = allowed} {db' = db'} q in
      (
        decided,
        subst (Fenced client m db) e fence,
        subst₂ (λ (x : Assignment) (y : Db). turn_decision client m x y ≡ ok (allowed, decided)) e
            same d,
        t,
      )
