-- ===== src/Worker/Boundaries.antt =====
-- A worker's own lifecycle frames cannot move the boundaries that the broker retains (broker.py).
use pi_tmux_orchestrator.Prelude.{
  String, ◌≡◌, refl, Bool, true, false, Option, none, some, List, [], ◌∷◌, ◌==◌, String_eq,
  Option_eq, is_some, arith, Bool-cases, inl, inr,
}
use pi_tmux_orchestrator.Prelude.Result.{ok, Result-cases}
use pi_tmux_orchestrator.Prelude.Json.{Fields}
use pi_tmux_orchestrator.Prelude.Table.{select, update}
use pi_tmux_orchestrator.Store.Rows.{Db, RoleRow, RoleState}
use pi_tmux_orchestrator.Store.Writes.{record_event}
use pi_tmux_orchestrator.Broker.State.{Client}
use pi_tmux_orchestrator.Worker.Progress.{role_row, store}
use pi_tmux_orchestrator.Worker.Lifecycle.{
  Lifecycle, boundary, enter, entered, retained_or, lifecycle_tx, is_uncertain, is_waiting,
  is_durable,
}

-- What may become of a role's row by a frame of state `asked`.
pub record Step (asked : RoleState) (r r' : RoleRow) : Type 0 where
  pub same_work : r'.active_assignment_id ≡ r.active_assignment_id
  pub same_generation : r'.generation ≡ r.generation
  pub durable : is_durable r.state ≡ true → is_uncertain asked ≡ false → r'.state ≡ r.state
  pub waits :
      is_waiting r.state ≡ true
      → is_some r.active_assignment_id ≡ true
      → is_uncertain asked ≡ false
      → r' ≡ r

entered-Step :
    (asked wanted : RoleState) (usage : Option Fields) (r : RoleRow)
    → (is_uncertain asked ≡ false → is_uncertain wanted ≡ false)
    → (is_waiting r.state ≡ true
        → is_some r.active_assignment_id ≡ true
        → is_uncertain asked ≡ false
        → ⊥)
    → Step asked r (entered (retained_or r.state wanted) usage r)
entered-Step asked wanted usage r tame waits = record {
  same_work = ground arith;
  same_generation = ground arith;
  durable = λ d u. ground (arith, tame u);
  waits = λ w a u. absurd (waits w a u);
}

boundary-some :
    (r : RoleRow) (asked : RoleState) (assignment : Option (Option String)) (role : String)
    (db : Db) {wanted : RoleState}
    → boundary r asked assignment role db ≡ ok (some wanted)
    → (is_uncertain asked ≡ false → is_uncertain wanted ≡ false)
      × (is_waiting r.state ≡ true
          → is_some r.active_assignment_id ≡ true
          → is_uncertain asked ≡ false
          → ⊥)
unfolding boundary
boundary-some r asked none role db {wanted} h = (λ u. ground arith, λ w a u. ground arith)
boundary-some r asked (some id) role db {wanted} h = (λ u. ground arith, λ w a u. ground arith)

pub select-update :
    {A : Type 0} (test : A → Bool) (set : A → A) (xs : List A) {x : A}
    → ((y : A) → test (set y) ≡ test y)
    → select test xs ≡ some x
    → select test (update test set xs) ≡ some (set x)
unfolding select update
select-update test set [] k h = absurd (ground arith)
select-update test set (y ∷ ys) {x} k h = elim (Bool-cases (test y)) [
  | inl hit ↦ ground (arith, k y)
  | inr miss ↦ ground (arith, select-update test set ys {x = x} k)
]

store-ok :
    (usage : Option Fields) (r : RoleRow) (write : Db → Db) (db : Db) {u : Unit {0}} {db' : Db}
    → store usage r write db ≡ ok (u, db')
    → db' ≡ write db
store-ok usage r write db {u} {db'} h = ground arith

same-Step : (asked : RoleState) (r : RoleRow) → Step asked r r
same-Step asked r = record {
  same_work = refl;
  same_generation = refl;
  durable = λ d u. refl;
  waits = λ w a u. refl;
}

enter-ok :
    (client : Client) (r : RoleRow) (usage : Option Fields) (wanted : RoleState) (db : Db)
    {set : Option RoleState} {db' : Db}
    → enter client r usage (some wanted) db ≡ ok (set, db')
    → db'.roles
      ≡ update
          (λ (x : RoleRow). x.role == client.role)
          (entered (retained_or r.state wanted) usage)
          db.roles
unfolding record_event
enter-ok client r usage wanted db {set} {db'} h = ground arith

-- The row of its role, after the first transaction of a lifecycle frame that does not raise: its work
-- and generation are the same, a frame that is not `uncertain` takes no role out of `recovering` or
-- `uncertain`, and changes nothing of a role that waits with work.
pub lifecycle_tx-Step :
    (client : Client) (m : Lifecycle) (asked : RoleState) (usage : Option Fields) (db : Db)
    {set : Option RoleState} {db' : Db} {r : RoleRow}
    → lifecycle_tx client m asked usage db ≡ ok (set, db')
    → select (λ (x : RoleRow). x.role == client.role) db.roles ≡ some r
    → (r' : RoleRow) × (select (λ (x : RoleRow). x.role == client.role) db'.roles ≡ some r')
      × Step asked r r'
unfolding lifecycle_tx role_row
lifecycle_tx-Step client m asked usage db {set} {db'} {r} h s =
    elim (Result-cases (boundary r asked m.assignment client.role db)) [
      | inr (c, e) ↦ absurd (ground (arith, s, e))
      | inl (none, e) ↦
          let same : db' ≡ db = ground (arith, s, e) in (r, rw same s, same-Step asked r)
      | inl (some wanted, e) ↦
          let done : enter client r usage (some wanted) db ≡ ok (set, db') = ground (arith, s, e) in
          let known = boundary-some r asked m.assignment client.role db {wanted = wanted} e in
          (
            entered (retained_or r.state wanted) usage r,
            rw (enter-ok client r usage wanted db {set = set} {db' = db'} done)
                (select-update _ _ db.roles {x = r} (λ y. ground arith) s),
            entered-Step asked wanted usage r known.0 known.1,
          )
    ]
