-- ===== src/Control/Receipts.antt =====
-- A command is recorded once, and a command that is repeated gets its receipt (broker_control.py).
use pi_tmux_orchestrator.Prelude.{
  String, ◌≡◌, ◌⊎◌, refl, sym, ap, ◌∙◌, true, ◌&&◌, not, leb, Option, none, some, List, arith, inl,
  inr, Bool-cases, Option-cases, contains, ◌==◌, String_eq, Option_eq, if◌then◌else◌, eq_iff,
  eq_refl,
}
use pi_tmux_orchestrator.Prelude.Result.{Result, ok, Result-cases}
use pi_tmux_orchestrator.Prelude.Table.{select, insert, length, select-insert-none}
use pi_tmux_orchestrator.Store.Rows.{Db, RoleRow, ControlCommand}
use pi_tmux_orchestrator.Broker.Rules.{
  Triple, Triple-bind, Triple-then, Triple-transact, Triple-weaken,
}
use pi_tmux_orchestrator.Workflow.Deliver.{Run}
use pi_tmux_orchestrator.Workflow.Untouched.{Of}
use pi_tmux_orchestrator.Control.Request.{Command, action_name}
use pi_tmux_orchestrator.Control.Decide.{
  Checked, known, fresh, check_command, check_known, has_command_id, same_command, Branch,
  branch_of, settle_tx, Outcome, command_row, max_rpc_commands, is_restart_failed, is_handing_over,
}
use pi_tmux_orchestrator.Control.Handle.{
  check_tx, settle, settle_fresh, answer_checked, handle_command,
}
use pi_tmux_orchestrator.Control.Awaits.{Keeps-before_settling, Keeps-after_settling}
use pi_tmux_orchestrator.Control.Registry.{OfRegistry, settle_tx-registry, Keeps-send_raw}

-- The registry has a receipt of the command, which is authenticated.
pub record HasReceipt (c : Command) (commands : List ControlCommand) (token : String) : Type 0 where
  pub row : ControlCommand
  pub found : select (has_command_id c.id) commands ≡ some row
  pub same : same_command c row ≡ true
  pub authentic : token ≡ c.token

-- At most the receipt of the command was added.
abbrev pub IsExtended : Command → List ControlCommand → List ControlCommand → Type 0
IsExtended c before after =
    (after ≡ before) ⊎ ((status : String) × (after ≡ insert (command_row c status) before))

option_refl : (o : Option String) → o == o ≡ true
option_refl none = refl
option_refl (some s) = ground (arith, eq_refl s)

command_row_same : (c : Command) (status : String) → same_command c (command_row c status) ≡ true
command_row_same c status =
    ground (arith, eq_refl (action_name c.action), eq_refl c.role, option_refl c.delivery)

HasReceipt-insert :
    (c : Command) (status : String) (rows : List ControlCommand) (token : String)
    → select (has_command_id c.id) rows ≡ none
    → token ≡ c.token
    → HasReceipt c (insert (command_row c status) rows) token
HasReceipt-insert c status rows token new authentic = record {
  row = command_row c status;
  found =
      select-insert-none (has_command_id c.id) (command_row c status) rows new
      ∙ ap (λ b. if b then some (command_row c status) else none) (eq_refl c.id);
  same = command_row_same c status;
  authentic = authentic;
}

module _ (run : Run) (restart_check : String → Result (Unit {0})) (c : Command)
    (before : List ControlCommand) where
  -- The registry as the command found it.
  abbrev Unchanged : List ControlCommand → String → Type 0
  Unchanged commands token = commands ≡ before

  abbrev Fresh : List ControlCommand → String → Type 0
  Fresh commands token =
      (commands ≡ before) × (select (has_command_id c.id) before ≡ none) × (token ≡ c.token)

  abbrev pub Recorded : List ControlCommand → String → Type 0
  Recorded commands token = HasReceipt c commands token × IsExtended c before commands

  abbrev pub Extended : List ControlCommand → String → Type 0
  Extended commands token = IsExtended c before commands

  abbrev AsChecked : Checked → List ControlCommand → String → Type 0
  AsChecked (known status) = Recorded
  AsChecked (fresh r) = Fresh

  check_known-AsChecked :
      (db : Db) (row : Option ControlCommand) (checked : Checked)
      → select (has_command_id c.id) db.control_commands ≡ row
      → db.meta.control_token ≡ c.token
      → db.control_commands ≡ before
      → check_known c db row ≡ ok checked
      → OfRegistry (AsChecked checked) db
  check_known-AsChecked db (some x) checked there authentic unchanged h =
      elim (Bool-cases (same_command c x)) [
        | inl same ↦
            let e : checked ≡ known x.status = ground (arith, same) in
            rw e (
              (record { row = x; found = there; same = same; authentic = authentic }),
              inl unchanged,
            )
        | inr other ↦ absurd (ground (arith, other))
      ]
  check_known-AsChecked db none checked there authentic unchanged h =
      elim (Option-cases (select (λ (r : RoleRow). r.role == c.role) db.roles)) [
        | inl missing ↦ absurd (ground (arith, missing))
        | inr (r, found) ↦
            let new : select (has_command_id c.id) before ≡ none =
              ap (select (has_command_id c.id)) (sym unchanged) ∙ there in
            elim (Bool-cases (
              leb max_rpc_commands (length db.control_commands)
              && not (is_restart_failed c.action && is_handing_over r.state))) [
                | inl full ↦ absurd (ground (arith, found, full))
                | inr room ↦
                    let e : checked ≡ fresh r = ground (arith, found, room) in
                    rw e (unchanged, new, authentic)
              ]
      ]

  check_tx-AsChecked :
      (db : Db) (checked : Checked) (db' : Db)
      → check_tx c db ≡ ok (checked, db')
      → db.control_commands ≡ before
      → OfRegistry (AsChecked checked) db'
  unfolding check_command
  check_tx-AsChecked db checked db' h unchanged = elim (Result-cases (check_command c db)) [
    | inr (code, e) ↦ absurd (ground (arith, e))
    | inl (found, e) ↦
        let same : db' ≡ db = ground (arith, e) in
        let mine : checked ≡ found = ground (arith, e) in
        elim (Bool-cases (db.meta.control_token == c.token)) [
          | inr other ↦ absurd (ground (arith, e, other))
          | inl authentic ↦
              rw (same, mine)
                (check_known-AsChecked db _ found refl
                  ((eq_iff db.meta.control_token c.token).0 authentic) unchanged
                  (ground (arith, e, authentic)))
        ]
  ]

  settle_tx-Recorded :
      (r : RoleRow) (branch : Branch) (db : Db) (outcome : Outcome) (db' : Db)
      → settle_tx c r branch db ≡ ok (outcome, db')
      → OfRegistry Fresh db
      → OfRegistry Recorded db'
  settle_tx-Recorded r branch db outcome db' h (unchanged, new, authentic) =
      let (commands, token) = settle_tx-registry c r branch db {outcome = outcome} {db' = db'} h in
      let added : db'.control_commands ≡ insert (command_row c outcome.status) before =
        commands ∙ ap (insert (command_row c outcome.status)) unchanged in
      rw added (
        HasReceipt-insert c outcome.status before db'.meta.control_token new (token ∙ authentic),
        inr (outcome.status, refl),
      )

  Triple-settle :
      (r : RoleRow) (branch : Branch)
      → Triple
          (Of (OfRegistry Fresh))
          (settle run restart_check c r branch)
          (λ _. Of (OfRegistry Recorded))
          (Of (OfRegistry Extended))
  unfolding settle
  Triple-settle r branch =
      Triple-then (Of (OfRegistry Fresh)) _ _
        (Triple-weaken _ (λ db sent h. inl h.0)
          (Keeps-before_settling Fresh run restart_check c branch))
        (Triple-bind (λ _. Of (OfRegistry Recorded)) _ _
          (Triple-weaken _ (λ db sent h. inl h.0)
            (Triple-transact _
              λ db sent outcome db' e h. settle_tx-Recorded r branch db outcome db' e h))
          (λ outcome.
            Triple-weaken _ (λ db sent h. h.1)
              (Keeps-after_settling Recorded run restart_check c outcome branch)))

  Triple-answer :
      (checked : Checked)
      → Triple
          (Of (OfRegistry (AsChecked checked)))
          (answer_checked run restart_check c checked)
          (λ _. Of (OfRegistry Recorded))
          (Of (OfRegistry Extended))
  unfolding settle_fresh
  Triple-answer (known status) = Triple-weaken _ (λ db sent h. h.1) (Keeps-send_raw _)
  Triple-answer (fresh r) = record {
    at = λ b h.
        (Triple-settle r
            (branch_of (contains b.clients c.role) (contains b.baselines c.role) c r b.db)).at
          b h;
  }

  pub Triple-handle_command :
      Triple
        (Of (OfRegistry Unchanged))
        (handle_command run restart_check c)
        (λ _. Of (OfRegistry Recorded))
        (Of (OfRegistry Extended))
  unfolding handle_command
  Triple-handle_command =
      Triple-bind (λ checked. Of (OfRegistry (AsChecked checked))) _ _
        (Triple-weaken _ (λ db sent h. inl h)
          (Triple-transact _ λ db sent checked db' e h. check_tx-AsChecked db checked db' e h))
        Triple-answer
