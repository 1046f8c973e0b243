-- ===== src/Attention/Settlement.antt =====
-- The handlers that may send a reminder or spend it keep it one-shot.
use pi_tmux_orchestrator.Prelude.{
  String, ◌≡◌, refl, ◌∙◌, Bool, true, false, not, ◌&&◌, List, ◌==◌, arith, inl, inr, String_eq,
  eq_iff, Bool-cases, if◌then◌else◌,
}
use pi_tmux_orchestrator.Prelude.Table.{
  All, All-update_into, All-map, All-select, insert, update, count-insert,
}
use pi_tmux_orchestrator.Store.Rows.{Db, Assignment}
use pi_tmux_orchestrator.Broker.State.{Client, Frame, response, report_reminder}
use pi_tmux_orchestrator.Broker.Transport.{transact, reply}
use pi_tmux_orchestrator.Broker.Rules.{
  Assertion, Triple, Keeps, Triple-bind, Triple-then, Triple-transact, Triple-send, Triple-weaken,
  Triple-catch, Triple-when, Keeps-raise, Keeps-broadcast, Keeps-broadcast_workflow, Keeps-when,
}
use pi_tmux_orchestrator.Attention.Rows.{
  set_assignment, set_role, attention_waiting, is_candidate, is_unreserved,
}
use pi_tmux_orchestrator.Attention.Handlers.{
  Signal, settled, reserved_reminder, settle, settlement_tx, Settlement, used_reminder,
  deserves_nudge, receipt, provider_turn_tx, recovery_turn_tx, turn_status, handle_settlement,
  handle_provider_turn, handle_recovery_turn, send_reminder, reminder_failed, active_role,
}
use pi_tmux_orchestrator.Attention.Inversion.{
  Fenced, settlement_tx-eq, recovery_turn_tx-eq, turned, provider_turn_tx-eq,
}
use pi_tmux_orchestrator.Attention.OneShot.{
  is_reminder_of, reminders, Allowed, IsOneShot, IsOneShot-set, IsOneShot-attention_waiting,
  waiting_in_attention, IsOneShot-settle, assignments-turn_decision, assignments-record_event,
}
use pi_tmux_orchestrator.Attention.Reminders.{Keeps-broadcast_assignment_state, Keeps-reply}

-- The reminder frame of an assignment, to the client's role.
abbrev reminder : Client → Assignment → String × Frame
reminder client a = (client.role, report_reminder a.id a.resume_id)

-- The reminder may still go out.
abbrev MaySend : Client → Settlement → Assertion
MaySend client s db sent =
    IsOneShot db sent × (s.nudge ≡ true → IsOneShot db (insert (reminder client s.assignment) sent))

module _ (client : Client) (m : Signal) (a : Assignment) (sent : List (String × Frame)) where
  reminder_of : (id : String) → is_reminder_of id (reminder client a) ≡ (a.id == id)
  reminder_of id = refl

  -- In the rows that the reservation writes, the reminder counts; the others are of other ids.
  reserved_allows :
      (rows : List Assignment)
      → reminders a.id sent ≡ 0
      → All (Allowed sent) rows
      → All
          (Allowed (insert (reminder client a) sent))
          (update (λ (x : Assignment). x.id == a.id) reserved_reminder rows)
  reserved_allows rows none_sent h =
      All-update_into (Allowed sent) (Allowed (insert (reminder client a) sent)) _ reserved_reminder
        rows
        (λ x t p.
          let e : x.id ≡ a.id = (eq_iff x.id a.id).0 t in
          rw e (ground (arith, count-insert (is_reminder_of a.id) (reminder client a) sent)))
        (λ x t p. ground (
          arith,
          count-insert (is_reminder_of x.id) (reminder client a) sent,
          eq_iff x.id a.id,
          eq_iff a.id x.id,
        ))
        h

  nothing_sent :
      (db : Db)
      → Fenced client m db a
      → IsOneShot db sent
      → is_unreserved a.reminder_state ≡ true
      → reminders a.id sent ≡ 0
  nothing_sent db fence h unreserved =
      let bound =
        All-select (Allowed sent) (is_candidate m.assignment_id) db.assignments fence.found h in
      ground arith

  settle_allows :
      (db : Db)
      → Fenced client m db a
      → IsOneShot db sent
      → deserves_nudge a ≡ true
      → IsOneShot (settle client m a db) (insert (reminder client a) sent)
  settle_allows db fence h nudged = rw nudged (
      rw assignments-record_event (
        reserved_allows _ (nothing_sent db fence h (ground arith))
          (IsOneShot-set sent a.id (settled m.id a) db (λ x. (refl, omega arith)) h)))

module _ (client : Client) (m : Signal) where
  Triple-settlement_tx :
      Triple IsOneShot (transact (settlement_tx client m)) (MaySend client) IsOneShot
  Triple-settlement_tx = Triple-transact (settlement_tx client m) λ db sent s db' e h.
      let (fence, d, n, done) = settlement_tx-eq client m db {s = s} {db' = db'} e in
      elim (Bool-cases s.duplicate) [
        | inl again ↦
            let same : db' ≡ db = done ∙ rw again refl in
            (rw same h, λ nudged. absurd (ground arith))
        | inr fresh ↦
            let same : db' ≡ settle client m s.assignment db = done ∙ rw fresh refl in
            (
              rw same (IsOneShot-settle client sent db h m s.assignment),
              λ nudged.
                  rw same (settle_allows client m s.assignment sent db fence h (ground arith)),
            )
      ]

  forget :
      (s : Settlement) (db : Db) (sent : List (String × Frame))
      → MaySend client s db sent
      → IsOneShot db sent
  forget s db sent h = h.0

  MaySend-reply :
      (s : Settlement) (id status : String) (success : Bool)
      → Triple (MaySend client s) (reply client id success status) (λ _. MaySend client s) IsOneShot
  MaySend-reply s id status success = Triple-weaken _ (forget s) (
      Triple-send client.role (response id success status) λ db sent h. (
        All-map (Allowed sent) (Allowed (insert (answer) sent)) db.assignments
            (λ a k. omega (arith, count-insert (is_reminder_of a.id) answer sent)) h.0,
        λ nudged.
            All-map (Allowed (insert (reminder client s.assignment) sent))
              (Allowed (insert (reminder client s.assignment) (insert answer sent))) db.assignments
              (λ a k. omega (
                arith,
                count-insert (is_reminder_of a.id) (reminder client s.assignment) sent,
                count-insert (is_reminder_of a.id) answer sent,
                count-insert (is_reminder_of a.id) (reminder client s.assignment)
                    (insert answer sent),
              ))
              (h.1 nudged),
      ))
    where
      answer : String × Frame
      answer = (client.role, response id success status)

  reminder_failed-IsOneShot : (a : Assignment) → Keeps IsOneShot (reminder_failed client a)
  unfolding reminder_failed
  reminder_failed-IsOneShot a =
      Triple-then IsOneShot _ _
        (Triple-transact _ λ db sent u db' e h.
          let same : db' ≡ attention_waiting client a (set_assignment a.id used_reminder db) =
            ground arith in
          rw same (
            IsOneShot-attention_waiting sent client a (set_assignment a.id used_reminder db)
              (IsOneShot-set sent a.id used_reminder db (λ x. (refl, ground arith)) h)))
        (Triple-then IsOneShot _ _ (Keeps-broadcast_assignment_state client)
          (Triple-then IsOneShot _ _ (Keeps-broadcast_workflow _ _) (Keeps-raise _)))

  send_reminder-IsOneShot :
      (s : Settlement)
      → s.nudge ≡ true
      → Triple (MaySend client s) (send_reminder client s.assignment) (λ _. IsOneShot) IsOneShot
  unfolding send_reminder
  send_reminder-IsOneShot s nudged =
      Triple-catch _ _
        (Triple-send client.role (report_reminder s.assignment.id s.assignment.resume_id)
          λ db sent h. h.1 nudged)
        (reminder_failed-IsOneShot s.assignment)

  pub handle_settlement-IsOneShot : Keeps IsOneShot (handle_settlement client m)
  unfolding handle_settlement
  handle_settlement-IsOneShot = Triple-bind (MaySend client) _ _ Triple-settlement_tx λ s.
      Triple-then (MaySend client s) _ _ (MaySend-reply s m.id (receipt s.duplicate) true) (
        Triple-then (MaySend client s) _ _
          (Triple-weaken _ (forget s) (Keeps-broadcast_assignment_state client))
          (Triple-then IsOneShot _ _
            (Triple-when s.nudge _ (send_reminder-IsOneShot s) (λ quiet. forget s))
            (Keeps-when (not s.duplicate && not s.nudge) _ (Keeps-broadcast_workflow _ _))))

  -- A denial of a provider turn blocks the assignment without a reminder.
  pub handle_provider_turn-IsOneShot : Keeps IsOneShot (handle_provider_turn client m)
  unfolding handle_provider_turn
  handle_provider_turn-IsOneShot =
      Triple-bind (λ _. IsOneShot) _ _ tx
        λ (a, allowed).
          Triple-then IsOneShot _ _ (Keeps-reply client m.id allowed (turn_status allowed)) (
            Keeps-when (not allowed) _ (
              Triple-then IsOneShot _ _ (Keeps-broadcast_assignment_state client)
                (Triple-then IsOneShot _ _ (Keeps-broadcast _) (Keeps-broadcast_workflow _ _))))
    where
      ended :
          (a : Assignment) (allowed : Bool) (decided : Db) (sent : List (String × Frame))
          → IsOneShot decided sent
          → IsOneShot (turned client a allowed decided) sent
      ended a true decided sent h = rw assignments-record_event h
      ended a false decided sent h =
          rw assignments-record_event (waiting_in_attention client sent decided h a "blocked")

      tx : Triple IsOneShot (transact (provider_turn_tx client m)) (λ _. IsOneShot) IsOneShot
      tx = Triple-transact (provider_turn_tx client m) λ db sent (a, allowed) db' e h.
          let (decided, fence, d, done) = provider_turn_tx-eq client m db {db' = db'} e in
          rw done (
            ended a allowed decided sent
              (rw (assignments-turn_decision client m a db {db' = decided} d) h))

  -- A recovery turn spends the reminder that was reserved.
  pub handle_recovery_turn-IsOneShot : Keeps IsOneShot (handle_recovery_turn client m)
  unfolding handle_recovery_turn
  handle_recovery_turn-IsOneShot =
      Triple-bind (λ _. IsOneShot) _ _ tx
        λ (a, allowed).
          Triple-then IsOneShot _ _ (Keeps-reply client m.id allowed (turn_status allowed)) (
            Triple-then IsOneShot _ _ (Keeps-broadcast_assignment_state client)
              (Keeps-when (not allowed) _ (Keeps-broadcast_workflow _ _)))
    where
      ended :
          (a : Assignment) (allowed : Bool) (db : Db) (sent : List (String × Frame))
          → IsOneShot db sent
          → IsOneShot
              (if allowed
                then set_role client.role active_role (set_assignment a.id used_reminder db)
                else attention_waiting client a db)
              sent
      ended a true db sent h =
          IsOneShot-set sent a.id used_reminder db (λ x. (refl, ground arith)) h
      ended a false db sent h = IsOneShot-attention_waiting sent client a db h

      tx : Triple IsOneShot (transact (recovery_turn_tx client m)) (λ _. IsOneShot) IsOneShot
      tx = Triple-transact (recovery_turn_tx client m) λ db sent (a, allowed) db' e h.
          let (fence, d, done) = recovery_turn_tx-eq client m db {db' = db'} e in
          rw done (ended a allowed db sent h)
