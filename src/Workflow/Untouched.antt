-- ===== src/Workflow/Untouched.antt =====
-- Drawing tokens and delivering context change the event log only (broker.py, broker_workflow.py).
use pi_tmux_orchestrator.Prelude.{
  ℕ, String, ◌≡◌, Bool, false, Option, none, List, arith, String_eq, ℕ_eq, inl, inr,
}
use pi_tmux_orchestrator.Prelude.Result.{ok, Result-cases}
use pi_tmux_orchestrator.Store.Rows.{Db, Event}
use pi_tmux_orchestrator.Store.Writes.{record_event}
use pi_tmux_orchestrator.Broker.Transport.{transact}
use pi_tmux_orchestrator.Broker.Rules.{
  Assertion, Keeps, Triple-bind, Triple-then, Triple-transact, Triple-send, Keeps-when,
}
use pi_tmux_orchestrator.Worker.Progress.{role_row}
use pi_tmux_orchestrator.Specialists.Activation.{public_specialist_activations}
use pi_tmux_orchestrator.Workflow.Deliver.{
  Run, draw, binding_tx, deliver, deliver_connected, delivered_event, run_state_capsule,
  pop_pending, keep_run_state, renew, has_run_state, materialize_pending_run_state,
  flush_pending_run_state, is_connected, is_pending,
}

-- What is said of the database only.
abbrev pub Of : (Db → Type 0) → Assertion
Of P db sent = P db

-- It does not depend on the event log.
abbrev pub IgnoresEvents : (Db → Type 0) → Type 0
IgnoresEvents P =
    (db : Db) (events : List Event) (last : ℕ)
    → P db
    → P (record db { events = events; last_sequence = last })

module _ (P : Db → Type 0) (blind : IgnoresEvents P) (run : Run) where
  pub Keeps-draw : Keeps (Of P) (draw run)
  unfolding draw
  Keeps-draw = record { at = λ b h. h }

  Keeps-binding_tx :
      (role kind : String) (id : Option String)
      → Keeps (Of P) (transact (binding_tx run role kind id))
  unfolding binding_tx role_row
  Keeps-binding_tx role kind id =
      Triple-transact _ λ db sent a db' e h. let same : db' ≡ db = ground arith in rw same h

  Keeps-delivered :
      (role : String) (n : ℕ) (id : String)
      → Keeps (Of P) (transact (λ db. ok (tt, delivered_event run role n id db)))
  unfolding record_event
  Keeps-delivered role n id = Triple-transact _ λ db sent a db' e h.
      let same : db' ≡ delivered_event run role n id db = ground arith in rw same (blind db _ _ h)

  Keeps-deliver_connected :
      (role kind : String) (n : ℕ) (trigger : Bool) (id : Option String)
      → Keeps (Of P) (deliver_connected run role kind n trigger id)
  unfolding deliver_connected
  Keeps-deliver_connected role kind n trigger id = Triple-bind _ _ _ Keeps-draw λ delivery_id.
      Triple-bind _ _ _ (Keeps-binding_tx role kind id) λ binding.
        Triple-then _ _ _ (Triple-send role _ (λ db sent h. h)) (Keeps-delivered role n delivery_id)

  pub Keeps-deliver :
      (role kind : String) (n : ℕ) (trigger : Bool) (id : Option String)
      → Keeps (Of P) (deliver run role kind n trigger id)
  unfolding deliver
  Keeps-deliver role kind n trigger id = record {
    at = λ b h.
        (Keeps-when (is_connected run role b) _ (Keeps-deliver_connected role kind n trigger id)).at
          b h;
  }

  pub Keeps-run_state_capsule : (n : ℕ) → Keeps (Of P) (run_state_capsule run n)
  unfolding run_state_capsule
  Keeps-run_state_capsule n = Triple-transact _ λ db sent a db' e h.
      elim (Result-cases (public_specialist_activations n db.activations)) [
        | inl (rows, k) ↦ let same : db' ≡ db = ground (arith, k) in rw same h
        | inr (c, k) ↦ absurd (ground (arith, k))
      ]

  Keeps-renew : (role : String) (n : ℕ) → Keeps (Of P) (renew run role n)
  unfolding pop_pending keep_run_state
  Keeps-renew role n =
      Triple-then _ _ _ (Triple-then _ _ _ (record { at = λ b h. h }) (Keeps-run_state_capsule n))
        (record { at = λ b h. h })

  Keeps-materialize :
      (role : String) (n : ℕ) → Keeps (Of P) (materialize_pending_run_state run role n)
  unfolding materialize_pending_run_state has_run_state
  Keeps-materialize role n = record {
    at = λ b h.
        (Triple-then (Of P) _ (has_run_state run role)
            (Keeps-when (is_pending run role b) _ (Keeps-renew role n))
            (record { at = λ c k. k })).at
          b h;
  }

  -- Delivering what waits for a role writes events and frames only.
  pub Keeps-flush : (role : String) (n : ℕ) → Keeps (Of P) (flush_pending_run_state run role n)
  unfolding flush_pending_run_state
  Keeps-flush role n = record {
    at = λ b h.
        (Keeps-when (is_pending run role b) _ (
            Triple-bind _ _ _ (Keeps-materialize role n)
              (λ content. Keeps-when content _ (Keeps-deliver role "run_state" n false none)))).at
          b h;
  }
