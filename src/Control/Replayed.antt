-- ===== src/Control/Replayed.antt =====
-- A command that is repeated only gets its receipt (broker_control.py).
use pi_tmux_orchestrator.Prelude.{
  String, ◌≡◌, refl, sym, ap, ◌∙◌, true, List, inl, inr, ◌==◌, String_eq, Option_eq, eq_iff,
}
use pi_tmux_orchestrator.Prelude.Result.{Result, ok, err, Result-cases, ErrorCode}
use pi_tmux_orchestrator.Prelude.Json.{Fields}
use pi_tmux_orchestrator.Store.Rows.{Db, ControlCommand}
use pi_tmux_orchestrator.Store.Writes
use pi_tmux_orchestrator.Broker.State.{Broker}
use pi_tmux_orchestrator.Broker.Transport.{◌>>=◌, transact}
use pi_tmux_orchestrator.Broker.Rules.{Post}
use pi_tmux_orchestrator.Workflow.Deliver.{Run}
use pi_tmux_orchestrator.Workflow.Untouched.{Of}
use pi_tmux_orchestrator.Control.Request.{Command, validate_control}
use pi_tmux_orchestrator.Control.Decide.{known, check_command}
use pi_tmux_orchestrator.Control.Handle.{
  send_raw, receipt, check_tx, handle_command, handle_control,
}
use pi_tmux_orchestrator.Control.Registry.{OfRegistry}
use pi_tmux_orchestrator.Control.Receipts.{
  Extended, HasReceipt, IsExtended, Recorded, Triple-handle_command,
}

module _ (run : Run) (restart_check : String → Result (Unit {0})) where
  check_command-known :
      (c : Command) (db : Db) (h : HasReceipt c db.control_commands db.meta.control_token)
      → check_tx c db ≡ ok (known h.row.status, db)
  unfolding check_command
  check_command-known c db h =
      let authentic : (db.meta.control_token == c.token) ≡ true =
        (eq_iff db.meta.control_token c.token).1 h.authentic in
      rw (authentic, h.found, h.same, check_command) refl

  transact-eq :
      {A : Type 0} (tx : Writes.Tx A) (a : A) (b : Broker)
      → tx b.db ≡ ok (a, b.db)
      → transact tx b ≡ (ok a, b)
  unfolding transact
  transact-eq tx a b e = rw (e, transact) refl

  -- A command whose receipt is there, as it is after a command that committed even if its answer was
  -- lost, is only answered again, with the status of the receipt: no table and no other frame changes.
  pub handle_command-receipt :
      (c : Command) (b : Broker) (h : HasReceipt c b.db.control_commands b.db.meta.control_token)
      → handle_command run restart_check c b ≡ send_raw (receipt c h.row.status true) b
  unfolding handle_command ◌>>=◌
  handle_command-receipt c b h =
      rw
        (
          transact-eq (check_tx c) (known h.row.status) b (check_command-known c b.db h),
          handle_command,
          ◌>>=◌,
        )
        refl

  either_outcome :
      (c : Command) (before : List ControlCommand) (r : Result (Unit {0})) (b : Broker)
      → Post
          (λ _. Of (OfRegistry (Recorded run restart_check c before)))
          (Of (OfRegistry (Extended run restart_check c before)))
          r
          b
      → IsExtended c before b.db.control_commands
  either_outcome c before (ok u) b h = h.1
  either_outcome c before (err code) b h = h

  -- Handling a command, whether it returns or raises and whichever writes fail, leaves the registry of
  -- commands as it was or adds one row, the receipt of this command.
  pub handle_command-IsExtended :
      (c : Command) (b : Broker)
      → IsExtended c b.db.control_commands
          (handle_command run restart_check c b).1.db.control_commands
  handle_command-IsExtended c b =
      either_outcome c b.db.control_commands (handle_command run restart_check c b).0
        (handle_command run restart_check c b).1
        ((Triple-handle_command run restart_check c b.db.control_commands).at b refl)

  after_return :
      (c : Command) (before : List ControlCommand) (r : Result (Unit {0})) (b : Broker)
      → r ≡ ok tt
      → Post
          (λ _. Of (OfRegistry (Recorded run restart_check c before)))
          (Of (OfRegistry (Extended run restart_check c before)))
          r
          b
      → HasReceipt c b.db.control_commands b.db.meta.control_token
  after_return c before (ok u) b e h = h.0
  after_return c before (err code) b e h = cc

  handle_control-eq :
      (m : Fields) (c : Command) (b : Broker)
      → validate_control run.roles m ≡ ok c
      → handle_control run restart_check m b ≡ handle_command run restart_check c b
  unfolding handle_control ◌>>=◌
  handle_control-eq m c b e = rw (e, handle_control, ◌>>=◌) refl

  refused-eq :
      (m : Fields) (code : ErrorCode) (b : Broker)
      → validate_control run.roles m ≡ err code
      → handle_control run restart_check m b ≡ (err code, b)
  unfolding handle_control ◌>>=◌
  refused-eq m code b e = rw (e, handle_control, ◌>>=◌) refl

  repeated :
      (m : Fields) (c : Command) (b : Broker)
      → validate_control run.roles m ≡ ok c
      → (handle_control run restart_check m b).0 ≡ ok tt
      → (status : String) × (handle_control run restart_check m
            (handle_control run restart_check m b).1
          ≡ send_raw (receipt c status true) (handle_control run restart_check m b).1)
  repeated m c b valid returned =
      let first = handle_control-eq m c b valid in
      let done : (handle_command run restart_check c b).0 ≡ ok tt =
        sym (ap (λ x. x.0) first) ∙ returned in
      let there =
        after_return c b.db.control_commands (handle_command run restart_check c b).0
          (handle_command run restart_check c b).1 done
          ((Triple-handle_command run restart_check c b.db.control_commands).at b refl) in
      rw first (
        there.row.status,
        handle_control-eq m c (handle_command run restart_check c b).1 valid
            ∙ handle_command-receipt c (handle_command run restart_check c b).1 there,
      )

  -- Once `handle_control` has returned, the message is a valid command, and handling the same message
  -- again only answers a status on the operator's connection, marked as a duplicate: no table, no
  -- worker and no observer sees anything of it.
  pub handle_control-handle_control :
      (m : Fields) (b : Broker)
      → (handle_control run restart_check m b).0 ≡ ok tt
      → (c : Command) × (status : String) × (validate_control run.roles m ≡ ok c)
        × (handle_control run restart_check m (handle_control run restart_check m b).1
            ≡ send_raw (receipt c status true) (handle_control run restart_check m b).1)
  handle_control-handle_control m b returned = elim (Result-cases (validate_control run.roles m)) [
    | inr (code, e) ↦
        let refused : (handle_control run restart_check m b).0 ≡ err code =
          ap (λ x. x.0) (refused-eq m code b e) in
        absurd (cc)
    | inl (c, e) ↦ let (status, again) = repeated m c b e returned in (c, status, e, again)
  ]
