-- ===== src/Admission/Extension.antt =====
-- `extend_call_allowance`: the operator's extension of every ceiling.
use pi_tmux_orchestrator.Prelude.{ℕ, ◌+◌, ◌≡◌, true, some, List, [], ◌∷◌, arith, inl, inr, map}
use pi_tmux_orchestrator.Prelude.Result.{ok, Result-cases}
use pi_tmux_orchestrator.Prelude.Json.{Value, int, decoded}
use pi_tmux_orchestrator.Prelude.Table.{All}
use pi_tmux_orchestrator.Store.Rows.{Db, Admission}
use pi_tmux_orchestrator.Store.Writes.{is_paused}
use pi_tmux_orchestrator.Admission.Policy.{
  Limits, InRange, call_limit, policy_value, call_limit-InRange, call_policy-policy_value,
  retained_call_policy-policy_value,
}
use pi_tmux_orchestrator.Admission.Ledger.{
  Status, policy, admission_status, is_enabled, raised_limits, extend_call_allowance,
}
use pi_tmux_orchestrator.Admission.Ceilings.{AllWithin}

-- Every ceiling, raised by `extra`.
abbrev pub raised : ℕ → Limits → Limits
raised extra = map (λ item. (item.0, item.1 + extra))

call_limit-eq : (n : ℕ) {m : ℕ} → call_limit (int n) ≡ ok m → m ≡ n
unfolding call_limit
call_limit-eq n h = ground arith

raised_limits-eq :
    (extra : ℕ) (limits : Limits) {l : Limits}
    → raised_limits extra limits ≡ ok l
    → l ≡ raised extra limits
unfolding raised_limits
raised_limits-eq extra [] h = ground arith
raised_limits-eq extra ((scope, value) ∷ rest) {l} h =
    elim (Result-cases (call_limit (int (value + extra)))) [
      | inr (c, e) ↦ absurd (ground arith)
      | inl (n, e) ↦ elim (Result-cases (raised_limits extra rest)) [
        | inr (c, f) ↦ absurd (ground arith)
        | inl (more, f) ↦
            cc (e, f, h, call_limit-eq (value + extra) e, raised_limits-eq extra rest f)
      ]
    ]

raised-InRange :
    (extra : ℕ) (limits : Limits) {l : Limits}
    → raised_limits extra limits ≡ ok l
    → All InRange (raised extra limits)
unfolding raised_limits
raised-InRange extra [] h = tt
raised-InRange extra ((scope, value) ∷ rest) {l} h =
    elim (Result-cases (call_limit (int (value + extra)))) [
      | inr (c, e) ↦ absurd (ground arith)
      | inl (n, e) ↦ elim (Result-cases (raised_limits extra rest)) [
        | inr (c, f) ↦ absurd (ground arith)
        | inl (more, f) ↦ (
          omega (arith, call_limit-InRange (int (value + extra)) e, call_limit-eq _ e),
          raised-InRange extra rest f,
        )
      ]
    ]

call_limit-int : (value : Value) {n : ℕ} → call_limit value ≡ ok n → value ≡ int n
unfolding call_limit
call_limit-int (int k) h = ground arith
call_limit-int _ h = ground arith

admission_status_lem :
    (db : Db) {status : Status}
    → admission_status db ≡ ok status
    → (policy db ≡ ok status.limits) × (status.paused ≡ is_paused db)
unfolding admission_status
admission_status_lem db {status} h = ground arith

-- The database after an extension to `limits`.
abbrev pub extended : Limits → Db → Db
extended limits db = record db {
  meta = record db.meta {
    call_admission_policy = decoded (policy_value limits);
    call_admission_paused = some "0";
  };
}

-- An extension that returns was asked for by an integer `extra` from 1 to 1000000 while the run was
-- paused under a policy, raised every ceiling by `extra`, lifted the pause and changed nothing else;
-- the policy that is read from then on is the raised one.
pub extend_outcome :
    (additional : Value) (db : Db) {db' : Db}
    → extend_call_allowance additional db ≡ ok (tt, db')
    → (extra : ℕ) × (limits : Limits) × (additional ≡ int extra)
      × (policy db ≡ ok limits)
      × (is_enabled limits ≡ true)
      × (is_paused db ≡ true)
      × (db' ≡ extended (raised extra limits) db)
      × (policy db' ≡ ok (raised extra limits))
unfolding extend_call_allowance
extend_outcome additional db {db'} h = elim (Result-cases (call_limit additional)) [
  | inr (c, e) ↦ absurd (ground arith)
  | inl (extra, e) ↦ elim (Result-cases (admission_status db)) [
    | inr (c, f) ↦ absurd (ground arith)
    | inl (status, f) ↦ elim (Result-cases (raised_limits extra status.limits)) [
      | inr (c, g) ↦ absurd (ground arith)
      | inl (limits, g) ↦
          let known = admission_status_lem db f in
          let to = raised_limits-eq extra status.limits g in
          let within = raised-InRange extra status.limits g in
          let checked = call_policy-policy_value (raised extra status.limits) within in
          let done : db' ≡ extended (raised extra status.limits) db = ground arith in
          (
            extra,
            status.limits,
            call_limit-int additional e,
            known.0,
            ground arith,
            ground arith,
            done,
            rw done (
                retained_call_policy-policy_value db.meta.schema_version
                  (raised extra status.limits) within),
          )
    ]
  ]
]

AllWithin-raised :
    (extra : ℕ) (limits : Limits) (rows : List Admission)
    → AllWithin limits rows
    → AllWithin (raised extra limits) rows
AllWithin-raised extra [] rows h = tt
AllWithin-raised extra ((scope, value) ∷ rest) rows h =
    (λ q. omega (arith, h.0 q), AllWithin-raised extra rest rows h.1)

-- The granted turns that were within the ceilings are within the raised ones.
pub extend-AllWithin :
    (limits : Limits) (additional : Value) (db : Db) {db' : Db}
    → policy db ≡ ok limits
    → AllWithin limits db.admissions
    → extend_call_allowance additional db ≡ ok (tt, db')
    → (limits' : Limits) × (policy db' ≡ ok limits') × AllWithin limits' db'.admissions
extend-AllWithin limits additional db {db'} p h e =
    let (extra, found, i, q, enabled, paused, done, read) =
      extend_outcome additional db {db' = db'} e in
    let same : limits ≡ found = ground arith in
    (raised extra found, read, rw done (AllWithin-raised extra found db.admissions (rw same at h)))
