-- ===== src/Admission/Examples.antt =====
-- Tests of the ledger: a run of at most two turns, one for each assignment.
use pi_tmux_orchestrator.Prelude.{
  ℕ, ◌≡◌, refl, true, false, none, [], ◌∷◌, arith, ◌↔◌, ◌||◌, not, ◌<◌, Bool,
}
use pi_tmux_orchestrator.Prelude.Result.{ok, err, orchestration_error}
use pi_tmux_orchestrator.Prelude.Json.{int}
use pi_tmux_orchestrator.Prelude.Table.{select, count, All, insert, exists}
use pi_tmux_orchestrator.Store.Rows.{Db}
use pi_tmux_orchestrator.Store.Writes.{is_paused}
use pi_tmux_orchestrator.Store.Samples.{sample}
use pi_tmux_orchestrator.Admission.Policy.{
  Limits, run, assignment, call_limit, parse_call_limit, call_policy, retained_call_policy,
}
use pi_tmux_orchestrator.Admission.Ledger.{
  Request, policy, admission_status, within_ceilings, decide, reserve_provider_turn, raised_limits,
  extend_call_allowance, admission_row, counts, is_enabled,
}
use pi_tmux_orchestrator.Admission.Ceilings.{recorded}
use pi_tmux_orchestrator.Admission.Extension.{raised, extended, extend_outcome}
use pi_tmux_orchestrator.Admission.History.{
  Reach, here, next, reserved, IsWithin, Reach-IsWithin, reserve_once, reserve_paused,
  reserve_decision,
}

parse_example : parse_call_limit "assignment=25" ≡ ok (assignment, 25)
unfolding parse_call_limit
parse_example = refl

parse_refuses :
    (parse_call_limit "role=+1" ≡ err orchestration_error)
    × (parse_call_limit "role=1000001" ≡ err orchestration_error)
    × (parse_call_limit "role" ≡ err orchestration_error)
unfolding parse_call_limit
parse_refuses = (refl, refl, refl)

abbrev limits : Limits
limits = (run, 2) ∷ (assignment, 1) ∷ []

sample-policy : policy sample ≡ ok limits
unfolding retained_call_policy call_policy
sample-policy = refl

abbrev request : Request
request = record {
  request_id = "r1";
  role = "implementer";
  assignment_id = "a1";
  generation = 1;
  resume_id = none;
}

abbrev second : Request
second = record request { request_id = "r2" }

abbrev after_first : Db
after_first = recorded request true sample

abbrev after_second : Db
after_second = recorded second false after_first

first_granted : reserve_provider_turn request sample ≡ ok (true, after_first)
unfolding reserve_provider_turn retained_call_policy call_policy select decide admission_status
    within_ceilings count exists
first_granted = refl

second_denied : reserve_provider_turn second after_first ≡ ok (false, after_second)
unfolding reserve_provider_turn retained_call_policy call_policy select decide admission_status
    within_ceilings count exists
second_denied = refl

replay : reserve_provider_turn request after_second ≡ ok (false, after_second)
unfolding reserve_provider_turn retained_call_policy call_policy select
replay = refl

two_steps : Reach sample after_second
two_steps =
    next (next here (reserved request true first_granted)) (reserved second false second_denied)

Reach-IsWithin_example : IsWithin after_second
Reach-IsWithin_example = Reach-IsWithin limits sample-policy refl two_steps

reserve_once_example : (◌≡◌ {A = Bool} false false) × (after_second ≡ after_second)
unfolding select
reserve_once_example =
    reserve_once request (admission_row request true) {a = after_first} {b = after_second}
      {c = after_second} refl (next here (reserved second false second_denied)) replay

reserve_paused_example : (◌≡◌ {A = Bool} false false) × (is_paused after_second ≡ true)
reserve_paused_example = reserve_paused request after_second {b = after_second} refl replay

reserve_decision_example :
    (granted : Bool) × (db' : Db) × (reserve_provider_turn request sample ≡ ok (granted, db'))
    × ((granted ≡ true) ↔ (
        (is_paused sample ≡ false)
        × All (λ item. count (counts item.0 request) sample.admissions < item.1) limits))
    × (db'.admissions ≡ insert (admission_row request granted) sample.admissions)
    × (is_paused db' ≡ is_paused sample || not granted)
unfolding select exists
reserve_decision_example =
    reserve_decision limits request sample sample-policy refl refl refl (omega arith) refl refl

extension_runs :
    extend_call_allowance (int 3) after_second ≡ ok (tt, extended (raised 3 limits) after_second)
unfolding extend_call_allowance call_limit admission_status retained_call_policy call_policy count
    raised_limits
extension_runs = refl

extend_outcome_example :
    (extra : ℕ) × (found : Limits) × (int 3 ≡ int extra)
    × (policy after_second ≡ ok found)
    × (is_enabled found ≡ true)
    × (is_paused after_second ≡ true)
    × (extended (raised 3 limits) after_second ≡ extended (raised extra found) after_second)
    × (policy (extended (raised 3 limits) after_second) ≡ ok (raised extra found))
extend_outcome_example = extend_outcome (int 3) after_second extension_runs
