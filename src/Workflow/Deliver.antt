-- ===== src/Workflow/Deliver.antt =====
-- `deliver` (broker.py) and the pending run states (broker_workflow.py).
use pi_tmux_orchestrator.Prelude.{
  ℕ, ◌+◌, String, Bool, false, ◌||◌, Option, none, some, List, ◌∷◌, ◌==◌, String_eq, if◌then◌else◌,
  contains,
}
use pi_tmux_orchestrator.Prelude.Result.{ok, err}
use pi_tmux_orchestrator.Store.Rows.{Db, RoleRow}
use pi_tmux_orchestrator.Store.Writes
use pi_tmux_orchestrator.Store.Writes.{Tx, record_event, delete}
use pi_tmux_orchestrator.Broker.State.{Broker, context}
use pi_tmux_orchestrator.Broker.Transport.{Exec, ◌>>=◌, ◌>>◌, when, transact, send}
use pi_tmux_orchestrator.Roles.Contracts.{Contracts}
use pi_tmux_orchestrator.Specialists.Activation.{public_specialist_activations}
use pi_tmux_orchestrator.Worker.Progress.{role_row}

-- What the broker knows of its run from the manifest and the startup: the roles, the contracts of the
-- custom ones, the roles that keep their context, and the tokens that `secrets.token_hex` will draw.
pub record Run : Type 0 where
  pub roles : List String
  pub version : ℕ
  pub custom_contracts : Contracts
  pub retained_roles : List String
  pub token : ℕ → String

module _ (run : Run) where
  -- secrets.token_hex(16)
  unfoldable pub draw : Exec String
  draw b = (ok (run.token b.drawn), record b { drawn = b.drawn + 1 })

  -- role in self.clients
  abbrev pub is_connected : String → Broker → Bool
  is_connected role b = contains b.clients role

  abbrev pub bound : Option String → RoleRow → Option (String × Option String)
  bound resume_id r = elim r.active_assignment_id [ none ↦ none | some id ↦ some (id, resume_id) ]

  -- An operator's message is bound to the assignment that the role works on.
  unfoldable pub binding_tx : String → String → Option String → Tx (Option (String × Option String))
  binding_tx role kind resume_id =
      if kind == "operator_message"
      then Writes.◌>>=◌ (role_row role) (λ r. Writes.pure (bound resume_id r))
      else Writes.pure none

  abbrev pub delivered_event : String → ℕ → String → Db → Db
  delivered_event role round_number delivery_id db =
      record_event "context_delivered"
        (record {
          role = some role;
          round_number = some round_number;
          assignment_id = none;
          delivery_id = some delivery_id;
          status = "delivered";
        })
        db

  unfoldable pub deliver_connected : String → String → ℕ → Bool → Option String → Exec (Unit {0})
  deliver_connected role kind round_number trigger resume_id = do
    delivery_id ← draw
    binding ← transact (binding_tx role kind resume_id)
    send role (context delivery_id binding kind round_number trigger)
    transact (Writes.modify (delivered_event role round_number delivery_id))

  -- `deliver`, without the text that is delivered
  unfoldable pub deliver : String → String → ℕ → Bool → Option String → Exec (Unit {0})
  deliver role kind round_number trigger resume_id b =
      when (is_connected role b) (deliver_connected role kind round_number trigger resume_id) b

  -- `_run_state_capsule` reads the decisions of the round; its text is left out.
  unfoldable pub run_state_capsule : ℕ → Exec (Unit {0})
  run_state_capsule round_number = transact λ db.
      elim (public_specialist_activations round_number db.activations) [
        | ok rows ↦ ok (tt, db)
        | err code ↦ err code
      ]

  abbrev pub is_retained_role : String → Bool
  is_retained_role role = contains run.retained_roles role

  -- self.pending_run_state.pop(role, None)
  unfoldable pub pop_pending : String → Exec (Unit {0})
  pop_pending role b = (
    ok tt,
    record b { pending_run_state = delete (λ (x : String). x == role) b.pending_run_state },
  )

  -- self.role_run_state[role] = …
  unfoldable pub keep_run_state : String → Exec (Unit {0})
  keep_run_state role b = (ok tt, record b { role_run_state = role ∷ b.role_run_state })

  abbrev pub renew : String → ℕ → Exec (Unit {0})
  renew role round_number =
      pop_pending role >> run_state_capsule round_number >> keep_run_state role

  unfoldable pub has_run_state : String → Exec Bool
  has_run_state role b = (ok (contains b.role_run_state role), b)

  abbrev pub is_pending : String → Broker → Bool
  is_pending role b = contains b.pending_run_state role || is_retained_role role

  -- `_materialize_pending_run_state`: whether there is a text to deliver
  unfoldable pub materialize_pending_run_state : String → ℕ → Exec Bool
  materialize_pending_run_state role round_number b =
      (when (is_pending role b) (renew role round_number) >> has_run_state role) b

  abbrev pub deliver_state : String → ℕ → Bool → Exec (Unit {0})
  deliver_state role round_number content =
      when content (deliver role "run_state" round_number false none)

  -- `_flush_pending_run_state`
  unfoldable pub flush_pending_run_state : String → ℕ → Exec (Unit {0})
  flush_pending_run_state role round_number b =
      when (is_pending role b)
        (materialize_pending_run_state role round_number >>= deliver_state role round_number) b
