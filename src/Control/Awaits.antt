-- ===== src/Control/Awaits.antt =====
-- What is awaited around the transaction keeps the registry of commands (broker_control.py).
use pi_tmux_orchestrator.Prelude.{
  ℕ, ◌+◌, String, ◌≡◌, true, false, Option, none, some, List, [], ◌∷◌, arith, String_eq,
}
use pi_tmux_orchestrator.Prelude.Result.{Result}
use pi_tmux_orchestrator.Store.Rows.{Db, ControlCommand, Kind, WorkflowState}
use pi_tmux_orchestrator.Store.Writes.{record_event, set_workflow_state}
use pi_tmux_orchestrator.Broker.State.{Answer}
use pi_tmux_orchestrator.Broker.Rules.{
  Keeps, Triple-bind, Triple-then, Triple-transact, Triple-send, Triple-catch, Keeps-pure,
  Keeps-raise, Keeps-broadcast_workflow,
}
use pi_tmux_orchestrator.Workflow.Deliver.{Run}
use pi_tmux_orchestrator.Workflow.Assign.{event_of}
use pi_tmux_orchestrator.Workflow.Untouched.{Of, Keeps-deliver, Keeps-flush}
use pi_tmux_orchestrator.Workflow.Routing.{Keeps-lift, Keeps-assign, Keeps-deliver_run_state}
use pi_tmux_orchestrator.Control.Request.{Command}
use pi_tmux_orchestrator.Control.Decide.{
  Branch, handover_failed, extended, unreachable, repaired, busy, reopened, guided, aborted,
  restarted, Outcome,
}
use pi_tmux_orchestrator.Control.Handle.{
  before_settling, after_settling, deliver_reopening, deliver_guidance, confirm_repair,
  finish_repair_continuation, continuation_failed, assigned_tx, respond, assign_repair,
  reopen_round, announce_uncertain, confirm,
}
use pi_tmux_orchestrator.Control.Registry.{Keeps-send_raw, OfRegistry, Registry-Respected}

module _ (R : List ControlCommand → String → Type 0) (run : Run)
    (restart_check : String → Result (Unit {0})) (c : Command) where
  abbrev P : Db → Type 0
  P = OfRegistry R

  Keeps-assign_repair : (n : ℕ) → Keeps (Of P) (assign_repair run restart_check n)
  Keeps-assign_repair n =
      Keeps-assign P (Registry-Respected R) run "implementer" Kind.implementation n

  Keeps-confirm_repair :
      (answer : Answer) (n : ℕ) → Keeps (Of P) (confirm_repair run restart_check answer n)
  unfolding confirm_repair assigned_tx
  Keeps-confirm_repair answer n = Triple-then _ _ _ (Keeps-assign_repair n) (
      Triple-bind _ _ _
        (Triple-transact _ λ db sent found db' e h. let same : db' ≡ db = ground arith in rw same h)
        λ (state, current).
          Triple-then _ _ _ (Keeps-broadcast_workflow state current) (Keeps-send_raw answer))

  Keeps-continuation_failed : (n : ℕ) → Keeps (Of P) (continuation_failed n)
  unfolding continuation_failed record_event set_workflow_state
  Keeps-continuation_failed n =
      Triple-then _ _ _
        (Triple-transact _ λ db sent u db' e h.
          let done : db'
              ≡ event_of "continuation_uncertain" "implementer" n none none "uncertain"
                  (set_workflow_state WorkflowState.uncertain db) =
            ground arith in
          rw done h)
        (Triple-then _ _ _ (Keeps-broadcast_workflow WorkflowState.uncertain n) (Keeps-raise _))

  Keeps-reopen_round : (n : Option ℕ) → Keeps (Of P) (reopen_round run restart_check n)
  Keeps-reopen_round none = Keeps-pure tt
  Keeps-reopen_round (some n) =
      Triple-then _ _ _ (Keeps-broadcast_workflow WorkflowState.active n) (Keeps-assign_repair n)

  Keeps-announce_uncertain : (n : Option ℕ) → Keeps (Of P) (announce_uncertain run restart_check n)
  Keeps-announce_uncertain none = Keeps-pure tt
  Keeps-announce_uncertain (some n) = Keeps-broadcast_workflow WorkflowState.uncertain n

  Keeps-respond : (outcome : Outcome) → Keeps (Of P) (respond run restart_check c outcome)
  Keeps-respond outcome = Triple-then _ _ _ (Keeps-send_raw _) (
      Triple-then _ _ _ (Keeps-reopen_round outcome.repair_round)
        (Keeps-announce_uncertain outcome.uncertain_round))

  Keeps-confirm :
      (outcome : Outcome) (n : Option ℕ) → Keeps (Of P) (confirm run restart_check c outcome n)
  unfolding finish_repair_continuation
  Keeps-confirm outcome none = Keeps-respond outcome
  Keeps-confirm outcome (some n) =
      Triple-catch _ _ (Keeps-confirm_repair _ n) (Keeps-continuation_failed n)

  pub Keeps-after_settling :
      (outcome : Outcome) (branch : Branch)
      → Keeps (Of P) (after_settling run restart_check c outcome branch)
  unfolding after_settling
  Keeps-after_settling outcome repaired = Keeps-confirm outcome outcome.repair_round
  Keeps-after_settling outcome handover_failed = Keeps-respond outcome
  Keeps-after_settling outcome extended = Keeps-respond outcome
  Keeps-after_settling outcome unreachable = Keeps-respond outcome
  Keeps-after_settling outcome busy = Keeps-respond outcome
  Keeps-after_settling outcome reopened = Keeps-respond outcome
  Keeps-after_settling outcome guided = Keeps-respond outcome
  Keeps-after_settling outcome aborted = Keeps-respond outcome
  Keeps-after_settling outcome restarted = Keeps-respond outcome

  Keeps-deliver_reopening :
      (role : String) → Keeps (Of P) (deliver_reopening run restart_check role)
  unfolding deliver_reopening
  Keeps-deliver_reopening role = record {
    at = λ b h.
        (Triple-then (Of P) _ _
            (Triple-then _ _ _
              (Keeps-deliver_run_state P (Registry-Respected R) run (role ∷ []) b.db.meta.round)
              (Keeps-flush P (Registry-Respected R).events run role b.db.meta.round))
            (Keeps-deliver P (Registry-Respected R).events run role "operator_message"
              (b.db.meta.round + 1) false none)).at
          b h;
  }

  Keeps-deliver_guidance : Keeps (Of P) (deliver_guidance run restart_check c)
  unfolding deliver_guidance
  Keeps-deliver_guidance = record {
    at = λ b h.
        (Keeps-deliver P (Registry-Respected R).events run c.role "operator_message" b.db.meta.round
            true (some c.id)).at
          b h;
  }

  pub Keeps-before_settling :
      (branch : Branch) → Keeps (Of P) (before_settling run restart_check c branch)
  unfolding before_settling
  Keeps-before_settling reopened = Keeps-deliver_reopening c.role
  Keeps-before_settling guided = Keeps-deliver_guidance
  Keeps-before_settling aborted = Triple-send c.role _ (λ db sent h. h)
  Keeps-before_settling restarted = Keeps-lift P (Registry-Respected R) run (restart_check c.role)
  Keeps-before_settling handover_failed = Keeps-pure tt
  Keeps-before_settling extended = Keeps-pure tt
  Keeps-before_settling unreachable = Keeps-pure tt
  Keeps-before_settling repaired = Keeps-pure tt
  Keeps-before_settling busy = Keeps-pure tt
