-- ===== src/Workflow/ReviewedOnce.antt =====
-- No round gets two reviews (broker_workflow.py).
use pi_tmux_orchestrator.Prelude.{
  ℕ, ◌≤◌, String, ◌≡◌, refl, Bool, true, false, List, [], ◌∷◌, arith, ◌==◌, String_eq, ℕ_eq,
  Bool-cases, inl, inr,
}
use pi_tmux_orchestrator.Prelude.Result.{Result, ok, err, Result-cases}
use pi_tmux_orchestrator.Prelude.Table.{insert, count, exists, count-insert}
use pi_tmux_orchestrator.Store.Rows.{Db, Assignment, Kind, WorkflowState}
use pi_tmux_orchestrator.Store.Writes.{record_event}
use pi_tmux_orchestrator.Broker.State.{Broker}
use pi_tmux_orchestrator.Broker.Rules.{
  Assertion, Holds, Keeps, Triple, Triple-bind, Triple-then, Triple-transact, Triple-send,
  Triple-weaken, Triple-when, Keeps-broadcast_workflow, Post,
}
use pi_tmux_orchestrator.Attention.Handlers.{lift}
use pi_tmux_orchestrator.Specialists.Activation.{public_specialist_activations}
use pi_tmux_orchestrator.Workflow.Deliver.{Run, is_connected}
use pi_tmux_orchestrator.Workflow.Untouched.{Of, Keeps-draw, Keeps-flush}
use pi_tmux_orchestrator.Roles.Contracts.{contracts_value, validate_assignment_kind}
use pi_tmux_orchestrator.Continuation.Policy.{repair_limit_reached}
use pi_tmux_orchestrator.Workflow.Assign.{
  assign_tx, add_assignment, new_assignment, announce, assign, assign_connected, if_connected,
  is_refused,
}
use pi_tmux_orchestrator.Workflow.Review.{is_review, is_due, review_tx, maybe_assign_reviewer}

-- No round has more than one assignment of the reviewer.
abbrev pub ReviewedOnce : List Assignment → Type 0
ReviewedOnce rows = (r : ℕ) → count (is_review r) rows ≤ 1

abbrev Unreviewed : ℕ → List Assignment → Type 0
Unreviewed round rows = ReviewedOnce rows × (count (is_review round) rows ≡ 0)

abbrev pub Reviewed : Db → Type 0
Reviewed db = ReviewedOnce db.assignments

abbrev Open : ℕ → Db → Type 0
Open round db = Unreviewed round db.assignments

count-exists :
    {A : Type 0} (test : A → Bool) (rows : List A) → exists test rows ≡ false → count test rows ≡ 0
unfolding exists count
count-exists test [] h = refl
count-exists test (x ∷ rest) h = ground (arith, count-exists test rest)

ReviewedOnce-insert :
    (round : ℕ) (id delivery_id : String) (rows : List Assignment)
    → Unreviewed round rows
    → ReviewedOnce (insert (new_assignment "reviewer" Kind.review round id delivery_id) rows)
ReviewedOnce-insert round id delivery_id rows (once, none_yet) r =
    let a = new_assignment "reviewer" Kind.review round id delivery_id in
    elim (Bool-cases (round == r)) [
      | inl same ↦
          let e : round ≡ r = ground arith in
          ground (arith, count-insert (is_review r) a rows, rw e at none_yet)
      | inr other ↦ ground (arith, count-insert (is_review r) a rows, once r)
    ]

added :
    (round : ℕ) (id delivery_id : String) (db : Db)
    → Unreviewed round db.assignments
    → ReviewedOnce (add_assignment "reviewer" Kind.review round id delivery_id db).assignments
unfolding record_event
added round id delivery_id db h = ReviewedOnce-insert round id delivery_id db.assignments h

assign_tx-ReviewedOnce :
    (round : ℕ) (id delivery_id : String) (db : Db) {paused : Bool} {db' : Db}
    → assign_tx "reviewer" Kind.review round id delivery_id db ≡ ok (paused, db')
    → Unreviewed round db.assignments
    → ReviewedOnce db'.assignments
unfolding assign_tx repair_limit_reached
assign_tx-ReviewedOnce round id delivery_id db {paused} {db'} h fresh =
    elim (Bool-cases (is_refused "reviewer" id delivery_id db)) [
      | inl refused ↦ absurd (ground (arith, refused))
      | inr accepted ↦
          let done : db' ≡ add_assignment "reviewer" Kind.review round id delivery_id db =
            ground (arith, accepted) in
          rw done (added round id delivery_id db fresh)
    ]

module _ (run : Run) (round : ℕ) where
  Keeps-announce :
      (id delivery_id : String) (paused : Bool)
      → Keeps (Of Reviewed) (announce "reviewer" Kind.review round id delivery_id paused)
  Keeps-announce id delivery_id true = Keeps-broadcast_workflow WorkflowState.needs_attention round
  Keeps-announce id delivery_id false = Triple-send "reviewer" _ (λ db sent h. h)

  Triple-assign_connected :
      Triple
        (Of (Open round))
        (assign_connected run "reviewer" Kind.review round)
        (λ _. Of Reviewed)
        (Of Reviewed)
  unfolding assign_connected
  Triple-assign_connected =
      Triple-then (Of (Open round)) _ _
        (Triple-weaken _ (λ db sent h. h.0)
          (Keeps-flush (Open round) (λ db e n h. h) run "reviewer" round))
        (Triple-bind (λ _. Of (Open round)) _ _
          (Triple-weaken _ (λ db sent h. h.0) (Keeps-draw (Open round) (λ db e n h. h) run))
          λ id.
            Triple-bind (λ _. Of (Open round)) _ _
              (Triple-weaken _ (λ db sent h. h.0) (Keeps-draw (Open round) (λ db e n h. h) run))
              λ delivery_id.
                Triple-bind (λ _. Of Reviewed) _ _
                  (Triple-weaken _ (λ db sent h. h.0)
                    (Triple-transact _ λ db sent paused db' e h.
                      assign_tx-ReviewedOnce round id delivery_id db {paused = paused} {db' = db'} e
                        h))
                  (Keeps-announce id delivery_id))

  Triple-if_connected :
      Triple
        (Of (Open round))
        (if_connected run "reviewer" (assign_connected run "reviewer" Kind.review round))
        (λ _. Of Reviewed)
        (Of Reviewed)
  unfolding if_connected
  Triple-if_connected = record {
    at = λ b h.
        (Triple-when (is_connected run "reviewer" b) _ (λ t. Triple-assign_connected)
            (λ t db sent k. k.0)).at
          b h;
  }

  Triple-assign :
      Triple
        (Of (Open round))
        (assign run "reviewer" Kind.review round)
        (λ _. Of Reviewed)
        (Of Reviewed)
  unfolding assign
  Triple-assign = Triple-then (Of (Open round)) _ _ validated Triple-if_connected
    where
      validated :
          Triple
            (Of (Open round))
            (lift (
              validate_assignment_kind "reviewer" Kind.review
                (contracts_value run.custom_contracts)))
            (λ _. Of (Open round))
            (Of Reviewed)
      validated = record { at = λ b h. either (validate_assignment_kind _ _ _) b h }
        where
          either :
              (r : Result (Unit {0})) (b : Broker)
              → Holds (Of (Open round)) b
              → Post (λ _. Of (Open round)) (Of Reviewed) r b
          either (ok u) b h = h
          either (err c) b h = h.0

  review_tx-Unreviewed :
      (db : Db) {due : Bool} {db' : Db}
      → review_tx run round db ≡ ok (due, db')
      → ReviewedOnce db.assignments
      → ReviewedOnce db'.assignments × (due ≡ true → count (is_review round) db'.assignments ≡ 0)
  unfolding review_tx is_due
  review_tx-Unreviewed db {due} {db'} h once =
      elim (Result-cases (public_specialist_activations round db.activations)) [
        | inr (c, e) ↦ absurd (ground (arith, e))
        | inl (rows, e) ↦
            let same : db' ≡ db = ground (arith, e) in
            rw same
              (once, λ d. count-exists (is_review round) db.assignments (ground (arith, e, d)))
      ]

  abbrev Checked : Bool → Assertion
  Checked due db sent =
      ReviewedOnce db.assignments × (due ≡ true → count (is_review round) db.assignments ≡ 0)

  Keeps-maybe_assign_reviewer : Keeps (Of Reviewed) (maybe_assign_reviewer run round)
  unfolding maybe_assign_reviewer
  Keeps-maybe_assign_reviewer =
      Triple-bind Checked _ _
        (Triple-transact _
          λ db sent due db' e h. review_tx-Unreviewed db {due = due} {db' = db'} e h)
        λ due.
          Triple-when due _ (λ t. record { at = λ b h. Triple-assign.at b (h.0, h.1 t) })
            (λ t db sent h. h.0)

  -- `maybe_assign_reviewer`, whether it returns or raises and whichever writes fail, leaves every round
  -- with at most one assignment of the reviewer, if it was so before.
  pub maybe_assign_reviewer-ReviewedOnce :
      (b : Broker)
      → ReviewedOnce b.db.assignments
      → ReviewedOnce (maybe_assign_reviewer run round b).1.db.assignments
  maybe_assign_reviewer-ReviewedOnce b h =
      ended (maybe_assign_reviewer run round b).0 (maybe_assign_reviewer run round b).1
        (Keeps-maybe_assign_reviewer.at b h)
    where
      ended :
          (r : Result (Unit {0})) (c : Broker)
          → Post (λ _. Of Reviewed) (Of Reviewed) r c
          → ReviewedOnce c.db.assignments
      ended (ok u) c k = k
      ended (err e) c k = k
