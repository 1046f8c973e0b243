-- ===== src/Workflow/RepairRounds.antt =====
-- `assign` never admits more repair rounds than the retained limit (broker.py, continuation.py).
use pi_tmux_orchestrator.Prelude.{
  ℕ, ◌≤◌, ◌<◌, String, ◌≡◌, refl, ◌∙◌, Bool, true, false, some, arith, String_eq, ℕ_eq, Bool-cases,
  inl, inr,
}
use pi_tmux_orchestrator.Prelude.Result.{ok, Result-cases}
use pi_tmux_orchestrator.Prelude.Table.{insert, length}
use pi_tmux_orchestrator.Store.Rows.{Db, Kind, Kind_eq}
use pi_tmux_orchestrator.Store.Writes.{record_event, set_workflow_state}
use pi_tmux_orchestrator.Continuation.Policy.{
  policy, rounds_admitted, is_repair, distinct_rounds, continuation_status, is_bad_pending,
  repair_limit_reached,
}
use pi_tmux_orchestrator.Continuation.Rounds.{length-distinct_rounds, distinct_rounds-insert}
use pi_tmux_orchestrator.Workflow.Assign.{
  assign_tx, add_assignment, pause_repair, new_assignment, is_refused,
}

-- The retained limit is this one, and no more repair rounds are admitted than it says.
pub record IsWithinLimit (limit : ℕ) (db : Db) : Type 0 where
  pub retained : policy db ≡ ok (some limit)
  pub within : rounds_admitted db ≤ limit

pause_repair-rest :
    (role : String) (n : ℕ) (db : Db)
    → (policy (pause_repair role n db) ≡ policy db)
      × ((pause_repair role n db).assignments ≡ db.assignments)
unfolding record_event set_workflow_state
pause_repair-rest role n db = (refl, refl)

add_assignment-rest :
    (role : String) (kind : Kind) (n : ℕ) (id delivery_id : String) (db : Db)
    → (policy (add_assignment role kind n id delivery_id db) ≡ policy db)
      × ((add_assignment role kind n id delivery_id db).assignments
          ≡ insert (new_assignment role kind n id delivery_id) db.assignments)
unfolding record_event set_workflow_state
add_assignment-rest role kind n id delivery_id db = (ground arith, ground arith)

below_limit :
    (role : String) (kind : Kind) (n limit : ℕ) (db : Db) (id delivery_id : String)
    → repair_limit_reached role kind n db ≡ ok false
    → policy db ≡ ok (some limit)
    → is_repair (new_assignment role kind n id delivery_id) ≡ true
    → rounds_admitted db < limit
unfolding repair_limit_reached continuation_status
below_limit role kind n limit db id delivery_id h p r =
    elim (Bool-cases (is_bad_pending db.meta.pending_repair_round)) [
      | inl bad ↦ absurd (ground (arith, p, bad))
      | inr good ↦ ground (arith, p, good)
    ]

rounds_added :
    (role : String) (kind : Kind) (n limit : ℕ) (id delivery_id : String) (db : Db)
    → repair_limit_reached role kind n db ≡ ok false
    → IsWithinLimit limit db
    → length (distinct_rounds (insert (new_assignment role kind n id delivery_id) db.assignments))
      ≤ limit
rounds_added role kind n limit id delivery_id db h w =
    let a = new_assignment role kind n id delivery_id in
    elim (Bool-cases (is_repair a)) [
      | inl repair ↦ omega (
        arith,
        length-distinct_rounds a db.assignments,
        below_limit role kind n limit db id delivery_id h w.retained repair,
      )
      | inr other ↦ rw (distinct_rounds-insert a db.assignments other) w.within
    ]

-- A committed `assign`, of any role, kind and round, keeps the repair rounds within the limit.
pub assign_tx-IsWithinLimit :
    (role : String) (kind : Kind) (n limit : ℕ) (id delivery_id : String) (db : Db) {paused : Bool}
    {db' : Db}
    → IsWithinLimit limit db
    → assign_tx role kind n id delivery_id db ≡ ok (paused, db')
    → IsWithinLimit limit db'
unfolding assign_tx
assign_tx-IsWithinLimit role kind n limit id delivery_id db {paused} {db'} w h =
    elim (Result-cases (repair_limit_reached role kind n db)) [
      | inr (c, e) ↦ absurd (ground (arith, e))
      | inl (true, e) ↦
          let done : db' ≡ pause_repair role n db = ground (arith, e) in
          let rest = pause_repair-rest role n db in
          rw done (record { retained = rest.0 ∙ w.retained; within = rw rest.1 w.within })
      | inl (false, e) ↦ elim (Bool-cases (is_refused role id delivery_id db)) [
        | inl refused ↦ absurd (ground (arith, e, refused))
        | inr accepted ↦
            let done : db' ≡ add_assignment role kind n id delivery_id db =
              ground (arith, e, accepted) in
            let rest = add_assignment-rest role kind n id delivery_id db in
            rw done (record {
              retained = rest.0 ∙ w.retained;
              within = rw rest.1 (rounds_added role kind n limit id delivery_id db e w);
            })
      ]
    ]
