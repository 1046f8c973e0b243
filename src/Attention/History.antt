-- ===== src/Attention/History.antt =====
-- Frames of any workers in any order, through `handle_message` (broker.py).
use pi_tmux_orchestrator.Prelude.{◌≤◌, String, ◌≡◌, Option, List, [], ◌∷◌, arith, String_eq}
use pi_tmux_orchestrator.Prelude.Result.{Result, ok, err}
use pi_tmux_orchestrator.Prelude.Table.{All, All-update, All-map, count}
use pi_tmux_orchestrator.Store.Rows.{Assignment}
use pi_tmux_orchestrator.Store.Writes
use pi_tmux_orchestrator.Broker.State.{Broker, Client}
use pi_tmux_orchestrator.Broker.Transport.{Exec, transact}
use pi_tmux_orchestrator.Broker.Rules.{Holds, Post, Keeps, Triple-transact, Triple-then}
use pi_tmux_orchestrator.Attention.Rows.{record_report_rejection}
use pi_tmux_orchestrator.Attention.Frames.{
  Keeps-lift, handle_progress-IsOneShot, handle_guardrail-IsOneShot, handle_delivery_ack-IsOneShot,
  handle_lifecycle-IsOneShot,
}
use pi_tmux_orchestrator.Workflow.Deliver.{Run}
use pi_tmux_orchestrator.Dispatch.Message.{
  WorkerMessage, lifecycle, report, progress, attention, settlement, rejected_report, recovery_turn,
  provider_turn, guardrail, ack, check_generation, dispatch, handle_message,
}
use pi_tmux_orchestrator.Attention.OneShot.{reminders, allowance, Allowed, IsOneShot}
use pi_tmux_orchestrator.Attention.Reminders.{
  handle_rejected_report-IsOneShot, handle_attention-IsOneShot,
}
use pi_tmux_orchestrator.Attention.Settlement.{
  handle_settlement-IsOneShot, handle_provider_turn-IsOneShot, handle_recovery_turn-IsOneShot,
}

-- A frame that `validate_client_message` accepted, or a report that it refused, which names anything.
pub data WorkerFrame : Type 0 where
  message : WorkerMessage → WorkerFrame
  malformed_report : Option String → WorkerFrame

abbrev pub IsNoReport : WorkerFrame → Type 0
IsNoReport (message (report m)) = ⊥
IsNoReport _ = Unit

module _ (run : Run) where
  unfoldable pub serve : Client → WorkerFrame → Exec (Unit {0})
  serve client (message m) = handle_message run client m
  serve client (malformed_report id) = transact (Writes.modify (record_report_rejection id client))

  unfoldable pub serve_all : List (Client × WorkerFrame) → Broker → Broker
  serve_all [] b = b
  serve_all ((client, frame) ∷ rest) b = serve_all rest (serve client frame b).1

rejection-IsOneShot :
    (id : Option String) (client : Client)
    → Keeps IsOneShot (transact (Writes.modify (record_report_rejection id client)))
unfolding record_report_rejection
rejection-IsOneShot id client = Triple-transact _ λ db sent u db' e h.
    let same : db' ≡ record_report_rejection id client db = ground arith in
    rw same (All-update (Allowed sent) _ _ db.assignments (λ x t p. p) h)

dispatch-IsOneShot :
    (run : Run) (client : Client) (m : WorkerMessage)
    → IsNoReport (message m)
    → Keeps IsOneShot (dispatch run client m)
unfolding dispatch
dispatch-IsOneShot run client (report m) h = absurd h
dispatch-IsOneShot run client (lifecycle m) h = handle_lifecycle-IsOneShot client m
dispatch-IsOneShot run client (progress m) h = handle_progress-IsOneShot client m
dispatch-IsOneShot run client (attention m value) h = handle_attention-IsOneShot client m value
dispatch-IsOneShot run client (settlement m) h = handle_settlement-IsOneShot client m
dispatch-IsOneShot run client (rejected_report m) h = handle_rejected_report-IsOneShot client m
dispatch-IsOneShot run client (recovery_turn m) h = handle_recovery_turn-IsOneShot client m
dispatch-IsOneShot run client (provider_turn m) h = handle_provider_turn-IsOneShot client m
dispatch-IsOneShot run client (guardrail m) h = handle_guardrail-IsOneShot client m
dispatch-IsOneShot run client (ack m) h = handle_delivery_ack-IsOneShot client m

handle_message-IsOneShot :
    (run : Run) (client : Client) (m : WorkerMessage)
    → IsNoReport (message m)
    → Keeps IsOneShot (handle_message run client m)
unfolding handle_message
handle_message-IsOneShot run client m h = record {
  at = λ b k.
      (Triple-then IsOneShot _ _ (Keeps-lift (check_generation client b.db))
          (dispatch-IsOneShot run client m h)).at
        b k;
}

serve-IsOneShot :
    (run : Run) (client : Client) (frame : WorkerFrame)
    → IsNoReport frame
    → Keeps IsOneShot (serve run client frame)
unfolding serve
serve-IsOneShot run client (message m) h = handle_message-IsOneShot run client m h
serve-IsOneShot run client (malformed_report id) h = rejection-IsOneShot id client

after_any :
    (r : Result (Unit {0})) (b : Broker) → Post (λ _. IsOneShot) IsOneShot r b → Holds IsOneShot b
after_any (ok u) b h = h
after_any (err c) b h = h

serve_all-IsOneShot :
    (run : Run) (frames : List (Client × WorkerFrame)) (b : Broker)
    → All (λ (x : Client × WorkerFrame). IsNoReport x.1) frames
    → Holds IsOneShot b
    → Holds IsOneShot (serve_all run frames b)
unfolding serve_all
serve_all-IsOneShot run [] b n h = h
serve_all-IsOneShot run ((client, frame) ∷ rest) b n h =
    serve_all-IsOneShot run rest (serve run client frame b).1 n.1 (
      after_any (serve run client frame b).0 (serve run client frame b).1
        ((serve-IsOneShot run client frame n.0).at b h))

allowance-le : (a : Assignment) → allowance a.reminder_state ≤ 1
allowance-le a = ground arith

nothing_sent : (rows : List Assignment) → All (Allowed []) rows
unfolding count
nothing_sent [] = tt
nothing_sent (a ∷ rest) = (omega arith, nothing_sent rest)

-- From a broker that has written nothing, after any frames of any workers but `report` frames that
-- `validate_client_message` accepts, of any generation and whichever `drain` fails, no assignment has
-- had more than one reminder written, and one whose reminder was not reserved has had none.
pub reminder_once :
    (run : Run) (frames : List (Client × WorkerFrame)) (b : Broker)
    → All (λ (x : Client × WorkerFrame). IsNoReport x.1) frames
    → b.sent ≡ []
    → All
        (λ (a : Assignment).
          (reminders a.id (serve_all run frames b).sent ≤ 1)
          × (reminders a.id (serve_all run frames b).sent ≤ allowance a.reminder_state))
        (serve_all run frames b).db.assignments
reminder_once run frames b no_reports fresh =
    All-map (Allowed (serve_all run frames b).sent) _ (serve_all run frames b).db.assignments
      (λ a k. (omega (arith, allowance-le a), k))
      (serve_all-IsOneShot run frames b no_reports (rw fresh (nothing_sent b.db.assignments)))
