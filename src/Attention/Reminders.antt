-- ===== src/Attention/Reminders.antt =====
-- Every handler of broker_attention.py keeps the one-shot reminder, and so does any sequence of them.
use pi_tmux_orchestrator.Prelude.{
  String, ◌≡◌, refl, Bool, true, false, not, Option, none, some, List, arith, inl, inr, String_eq,
  Bool-cases, if◌then◌else◌,
}
use pi_tmux_orchestrator.Prelude.Result.{Result, ok, err}
use pi_tmux_orchestrator.Prelude.Json.{Value}
use pi_tmux_orchestrator.Prelude.Table.{All-map, insert, select, count-insert}
use pi_tmux_orchestrator.Store.Rows.{Db, RoleRow, Assignment}
use pi_tmux_orchestrator.Broker.State.{Broker, Client, Frame, response}
use pi_tmux_orchestrator.Broker.Transport.{transact, reply, broadcast}
use pi_tmux_orchestrator.Broker.Rules.{
  Assertion, Holds, Post, Triple, Keeps, Triple-bind, Triple-then, Triple-transact, Triple-send,
  Keeps-pure, Keeps-raise, Keeps-broadcast, Keeps-broadcast_workflow, Keeps-when,
}
use pi_tmux_orchestrator.Attention.Validate.{Attention, validate_attention}
use pi_tmux_orchestrator.Attention.Rows.{set_assignment, attention_waiting, is_unattempted}
use pi_tmux_orchestrator.Attention.Handlers.{
  Signal, rejected_attempt, rejected_report_tx, in_attention, attention_tx, receipt,
  handle_rejected_report, handle_attention, broadcast_assignment_state, show_state, lift,
}
use pi_tmux_orchestrator.Attention.Inversion.{rejected_report_tx-eq, attention_tx-eq}
use pi_tmux_orchestrator.Attention.OneShot.{
  is_reminder_of, Allowed, IsOneShot, IsOneShot-set, waiting_in_attention,
}

pub Keeps-broadcast_assignment_state :
    {I : Assertion} (client : Client) → Keeps I (broadcast_assignment_state client)
unfolding broadcast_assignment_state broadcast
Keeps-broadcast_assignment_state {I} client = record { at = λ b h. shown b h (select _ b.db.roles) }
  where
    shown :
        (b : Broker)
        → Holds I b
        → (row : Option RoleRow)
        → Post (λ _. I) I (show_state client row b).0 (show_state client row b).1
    shown b h none = h
    shown b h (some r) = h

pub Keeps-reply :
    (client : Client) (id : String) (success : Bool) (status : String)
    → Keeps IsOneShot (reply client id success status)
Keeps-reply client id success status =
    Triple-send client.role (response id success status) λ db sent h.
      All-map (Allowed sent) (Allowed (insert (client.role, response id success status) sent))
        db.assignments
        (λ a k. omega (
          arith,
          count-insert (is_reminder_of a.id) (client.role, response id success status) sent,
        ))
        h

module _ (client : Client) (m : Signal) where
  Keeps-rejected_report_tx : Keeps IsOneShot (transact (rejected_report_tx client m))
  Keeps-rejected_report_tx = Triple-transact (rejected_report_tx client m) λ db sent u db' e h.
      let (a, fence, done) = rejected_report_tx-eq client m db {db' = db'} e in
      elim (Bool-cases (is_unattempted a.report_attempt)) [
        | inl new ↦
            rw (done, new)
              (IsOneShot-set sent a.id rejected_attempt db (λ x. (refl, omega arith)) h)
        | inr old ↦ rw (done, old) h
      ]

  -- A malformed report is recorded without a reminder.
  pub handle_rejected_report-IsOneShot : Keeps IsOneShot (handle_rejected_report client m)
  unfolding handle_rejected_report
  handle_rejected_report-IsOneShot = Triple-then IsOneShot _ _ Keeps-rejected_report_tx (
      Triple-then IsOneShot _ _ (Keeps-reply client m.id true "recorded")
        (Keeps-broadcast_assignment_state client))

  Keeps-attention_tx :
      (reason : String)
      → Triple IsOneShot (transact (attention_tx client m reason)) (λ _. IsOneShot) IsOneShot
  Keeps-attention_tx reason =
      Triple-transact (attention_tx client m reason) λ db sent (a, duplicate) db' e h.
        let (fence, d, done) = attention_tx-eq client m db reason {db' = db'} e in
        committed a duplicate db db' sent done h
    where
      committed :
          (a : Assignment) (duplicate : Bool) (db db' : Db) (sent : List (String × Frame))
          → db' ≡ (
              if duplicate
              then db
              else attention_waiting client a (set_assignment a.id (in_attention reason) db))
          → IsOneShot db sent
          → IsOneShot db' sent
      committed a true db db' sent done h = rw done h
      committed a false db db' sent done h =
          rw done (waiting_in_attention client sent db h a reason)

  -- An attention is recorded without a reminder.
  pub handle_attention-IsOneShot :
      (value : Value) → Keeps IsOneShot (handle_attention client m value)
  unfolding handle_attention
  handle_attention-IsOneShot value =
      Triple-bind (λ _. IsOneShot) _ _ (lifted (validate_attention value))
        λ checked.
          Triple-bind (λ _. IsOneShot) _ _ (Keeps-attention_tx checked.reason)
            λ (a, duplicate).
              Triple-then IsOneShot _ _ (Keeps-reply client m.id true (receipt duplicate)) (
                Triple-then IsOneShot _ _ (Keeps-broadcast_assignment_state client) (
                  Keeps-when (not duplicate) _
                    (Triple-then IsOneShot _ _ (Keeps-broadcast _) (Keeps-broadcast_workflow _ _))))
    where
      lifted : (r : Result Attention) → Keeps IsOneShot (lift r)
      lifted (ok a) = Keeps-pure a
      lifted (err c) = Keeps-raise c
