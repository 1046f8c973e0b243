-- ===== src/Continuation/Limit.antt =====
-- An approval admits exactly one more repair round (continuation.py).
use pi_tmux_orchestrator.Prelude.{
  ℕ, ◌+◌, ◌≤◌, max, ◌≡◌, refl, Bool, true, false, Option, none, some, arith, leb, ap, ◌∙◌,
  String_eq, ℕ_eq, contains, Bool-cases, inl, inr,
}
use pi_tmux_orchestrator.Prelude.Result.{ok, Result-cases}
use pi_tmux_orchestrator.Prelude.Json.{int, decoded, get, keys_within, keys_include}
use pi_tmux_orchestrator.Prelude.Table.{exists}
use pi_tmux_orchestrator.Store.Rows.{Db, Kind, Kind_eq}
use pi_tmux_orchestrator.Continuation.Policy.{
  Status, validate_repair_limit, policy_value, read_policy, retained_repair_policy, policy,
  rounds_admitted, continuation_status, repair_limit_reached, approved, approved_repair_extension,
  is_busy, needs_attention, max_repair_rounds, is_bad_pending,
}

-- The database once the policy is retained.
abbrev pub retained : Option ℕ → Db → Db
retained limit db = record db {
  meta = record db.meta { continuation_policy = decoded (policy_value limit) };
}

pub policy-retained :
    (limit : ℕ) (db : Db)
    → limit ≤ max_repair_rounds
    → policy (retained (some limit) db) ≡ ok (some limit)
unfolding retained_repair_policy read_policy get keys_within keys_include contains
    validate_repair_limit
policy-retained limit db h = ground arith

validate_repair_limit-int :
    (n : ℕ) {limit : Option ℕ}
    → validate_repair_limit (int n) ≡ ok limit
    → (limit ≡ some n) × (n ≤ max_repair_rounds)
unfolding validate_repair_limit
validate_repair_limit-int n {limit} h = (ground arith, ground arith)

approved-ok :
    (used : ℕ) (safe : Bool) (pending : Option ℕ) (old : Option ℕ) {round : ℕ} {limit : Option ℕ}
    → approved used safe pending old ≡ ok (round, limit)
    → (n : ℕ) × (old ≡ some n)
      × (pending ≡ some round)
      × (safe ≡ true)
      × (limit ≡ some (max n used + 1))
      × (max n used + 1 ≤ max_repair_rounds)
approved-ok used false (some p) (some n) h = absurd (ground arith)
approved-ok used true (some p) (some n) {round} {limit} h =
    elim (Result-cases (validate_repair_limit (int (max n used + 1)))) [
      | inr (c, e) ↦ absurd (ground (arith, e))
      | inl (raised, e) ↦
          let known = validate_repair_limit-int (max n used + 1) {limit = raised} e in
          (n, refl, ground (arith, e), refl, ground (arith, e, known.0), known.1)
    ]
approved-ok used safe none old h = absurd (ground arith)
approved-ok used safe (some p) none h = absurd (ground arith)

status-ok :
    (db : Db) {status : Status}
    → continuation_status db ≡ ok status
    → (policy db ≡ ok status.limit)
      × (is_bad_pending db.meta.pending_repair_round ≡ false)
      × (status.repair_rounds_admitted ≡ rounds_admitted db)
      × (status.pending_repair_round ≡ db.meta.pending_repair_round)
unfolding continuation_status
status-ok db {status} h = elim (Result-cases (policy db)) [
  | inr (c, e) ↦ absurd (ground (arith, e))
  | inl (limit, e) ↦ elim (Bool-cases (is_bad_pending db.meta.pending_repair_round)) [
    | inl bad ↦ absurd (ground (arith, e, bad))
    | inr good ↦ (ground (arith, e, good), good, ground (arith, e, good), ground (arith, e, good))
  ]
]

reached-retained :
    (limit round : ℕ) (db : Db)
    → limit ≤ max_repair_rounds
    → 2 ≤ round
    → is_bad_pending db.meta.pending_repair_round ≡ false
    → repair_limit_reached "implementer" Kind.implementation round (retained (some limit) db)
      ≡ ok (leb limit (rounds_admitted db))
unfolding repair_limit_reached continuation_status
reached-retained limit round db h two good = ground (arith, policy-retained limit db h, good)

granted :
    (db : Db) (round old : ℕ) {limit : Option ℕ}
    → limit ≡ some (max old (rounds_admitted db) + 1)
    → repair_limit_reached "implementer" Kind.implementation round
        (retained (some (max old (rounds_admitted db) + 1)) db)
      ≡ ok (leb (max old (rounds_admitted db) + 1) (rounds_admitted db))
    → repair_limit_reached "implementer" Kind.implementation round (retained limit db) ≡ ok false
granted db round old raised reached =
    let below : leb (max old (rounds_admitted db) + 1) (rounds_admitted db) ≡ false =
      ground arith in
    rw raised (reached ∙ ap ok below)

-- What an approval grants: nobody works, the run waits for exactly this round, the limit grows to one
-- above the larger of the old limit and the rounds admitted, and with it this round is admitted.
pub record Grant (db : Db) (round : ℕ) (limit : Option ℕ) : Type 0 where
  pub old : ℕ
  pub was : policy db ≡ ok (some old)
  pub waits : db.meta.pending_repair_round ≡ some round
  pub paused : needs_attention db.meta.workflow_state ≡ true
  pub nobody_works : exists is_busy db.roles ≡ false
  pub raised : limit ≡ some (max old (rounds_admitted db) + 1)
  pub admits :
      repair_limit_reached "implementer" Kind.implementation round (retained limit db) ≡ ok false

-- An approval that returns was given while nobody worked and the run waited for its round; the limit
-- grows to one above the larger of the old limit and the rounds admitted, and under it the round is
-- admitted.
pub approved_repair_extension-Grant :
    (db : Db) {round : ℕ} {limit : Option ℕ}
    → approved_repair_extension db ≡ ok (round, limit)
    → Grant db round limit
unfolding approved_repair_extension
approved_repair_extension-Grant db {round} {limit} h =
    elim (Result-cases (continuation_status db)) [
      | inr (c, e) ↦ absurd (ground (arith, e))
      | inl (status, e) ↦
          let known = status-ok db {status = status} e in
          let (old, was, waits, safe, raised, few) =
            approved-ok status.repair_rounds_admitted _ _ _ {round = round} {limit = limit}
              (rw e at h) in
          let (retained_limit, good, used, pending) = known in
          let waiting : db.meta.pending_repair_round ≡ some round = cc in
          let two : 2 ≤ round = ground (arith, waiting, good) in
          record {
            old = old;
            was = ground (arith, retained_limit, was);
            waits = waiting;
            paused = ground (arith, safe);
            nobody_works = ground (arith, safe);
            raised = ground (arith, raised, used);
            admits = granted db round old (rw used at raised) (
                reached-retained (max old (rounds_admitted db) + 1) round db (rw used at few) two
                  good);
          }
    ]
