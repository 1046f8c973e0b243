-- ===== src/Workflow/Accepting.antt =====
-- What the acceptance of a report keeps or brings about (broker_workflow.py).
use pi_tmux_orchestrator.Prelude.{ℕ, String, Option, ◌≡◌, Bool, arith, inl, inr}
use pi_tmux_orchestrator.Prelude.Result.{ok, Result-cases}
use pi_tmux_orchestrator.Store.Rows.{Db, WorkflowState}
use pi_tmux_orchestrator.Broker.State.{Client}
use pi_tmux_orchestrator.Broker.Rules.{
  Keeps, Triple, Triple-bind, Triple-then, Triple-transact, Triple-send, Triple-catch,
  Triple-weaken, Keeps-broadcast, Keeps-broadcast_workflow, Keeps-raise,
}
use pi_tmux_orchestrator.Admission.Ledger.{admission_status}
use pi_tmux_orchestrator.Protocol.Body.{Body}
use pi_tmux_orchestrator.Store.Rows.{Assignment}
use pi_tmux_orchestrator.Workflow.Deliver.{Run, draw}
use pi_tmux_orchestrator.Workflow.Untouched.{Of}
use pi_tmux_orchestrator.Workflow.Route.{route_approval, approve_tx, approved, verdict_state}
use pi_tmux_orchestrator.Workflow.Routing.{Respected, Keeps-route_report}
use pi_tmux_orchestrator.Workflow.Accept.{
  ReportMessage, ReportUsage, accept_tx, remember_report, routing_failed, routing_uncertain,
  route_accepted, accept_report,
}

-- A predicate that no route breaks, whether it succeeds or fails.
pub record Lasting (P : Db → Type 0) : Type 0 where
  pub respected : Respected P
  pub approved : (db : Db) (run : Run) (n : ℕ) (paused : Bool) → P db → P (approved run n paused db)
  pub uncertain :
      (db : Db) (client : Client) (a : Assignment) → P db → P (routing_uncertain client a db)

module _ (P : Db → Type 0) (lasting : Lasting P) (run : Run) (client : Client) where
  Keeps-route_approval : (n : ℕ) → Keeps (Of P) (route_approval run n)
  unfolding route_approval approve_tx
  Keeps-route_approval n =
      Triple-bind _ _ _
        (Triple-transact _ λ db sent paused db' e h. elim (Result-cases (admission_status db)) [
          | inr (c, k) ↦ absurd (ground (arith, k))
          | inl (status, k) ↦
              let done : db' ≡ approved run n status.paused db = ground (arith, k) in
              rw done (lasting.approved db run n status.paused h)
        ])
        λ paused. Keeps-broadcast_workflow (verdict_state run paused) n

  Keeps-routing_failed : (a : Assignment) → Keeps (Of P) (routing_failed client a)
  unfolding routing_failed
  Keeps-routing_failed a =
      Triple-then _ _ _
        (Triple-transact _ λ db sent u db' e h.
          let done : db' ≡ routing_uncertain client a db = ground arith in
          rw done (lasting.uncertain db client a h))
        (Triple-then _ _ _ (Keeps-broadcast_workflow WorkflowState.uncertain a.round)
          (Keeps-raise _))

  pub Keeps-route_accepted :
      (a : Assignment) (body : Body) → Keeps (Of P) (route_accepted run client a body)
  unfolding route_accepted
  Keeps-route_accepted a body =
      Triple-catch _ _
        (Keeps-route_report P lasting.respected run client.role a.round body
          λ approval. Keeps-route_approval a.round)
        (Keeps-routing_failed a)

  -- From `I` the acceptance brings about `P`; an exception leaves at least `E`.
  pub Triple-accept_report :
      (I E : Db → Type 0) (m : ReportMessage) (body : Body) (usage : Option ReportUsage)
      (a : Assignment)
      → ((db : Db) → I db → E db)
      → ((db : Db) → P db → E db)
      → ((db : Db) (id : String) (db' : Db)
          → accept_tx client a body usage id db ≡ ok (tt, db')
          → I db
          → P db')
      → Triple (Of I) (accept_report run client m body usage a) (λ _. Of P) (Of E)
  unfolding accept_report draw remember_report
  Triple-accept_report I E m body usage a ie pe step =
      Triple-bind (λ _. Of I) _ _ (record { at = λ b h. h })
        λ id.
          Triple-then (Of P) _ _
            (Triple-weaken _ (λ db sent h. ie db h)
              (Triple-transact _ λ db sent u db' e h. step db id db' e h))
            (Triple-weaken _ (λ db sent h. pe db h)
              (Triple-then (Of P) _ _ (record { at = λ b h. h })
                (Triple-then _ _ _ (Keeps-broadcast _) (
                  Triple-then _ _ _ (Keeps-route_accepted a body)
                    (Triple-send client.role _ (λ db sent h. h))))))
