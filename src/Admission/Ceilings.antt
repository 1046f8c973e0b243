-- ===== src/Admission/Ceilings.antt =====
-- What a call of `reserve_provider_turn` did, and that the ceilings hold after every call.
use pi_tmux_orchestrator.Prelude.{
  ◌≤◌, ◌<◌, String, ◌≡◌, refl, sym, ap, subst, Bool, true, false, not, ◌&&◌, none, some, List, [],
  ◌∷◌, arith, leb, ltb, ◌==◌, inl, inr, String_eq, eq_iff, if◌then◌else◌, Bool-cases, Option-cases,
}
use pi_tmux_orchestrator.Prelude.Result.{ok, Result-cases}
use pi_tmux_orchestrator.Prelude.Table.{All, select, count, insert, length, count-insert}
use pi_tmux_orchestrator.Store.Rows.{Db, Admission}
use pi_tmux_orchestrator.Store.Writes.{is_paused}
use pi_tmux_orchestrator.Admission.Policy.{Scope, run, role, assignment, Limits, max_call_allowance}
use pi_tmux_orchestrator.Admission.Ledger.{
  Request, policy, admission_status, within_ceilings, counts, admission_row, same_identity,
  is_enabled, reserve_provider_turn, pause_update, pause_replace, decide,
}

abbrev pub has_id : Request → Admission → Bool
has_id r row = row.id == r.request_id

abbrev pub decided : Limits → Request → Db → Bool
decided limits r db = within_ceilings limits r db.admissions (not (is_paused db))

-- The database after a new request was decided.
abbrev pub recorded : Request → Bool → Db → Db
recorded r granted db =
    let inserted = record db { admissions = insert (admission_row r granted) db.admissions } in
    if granted then inserted else pause_replace inserted

-- The three ways in which a call returns.
pub data Outcome (limits : Limits) (r : Request) (db : Db) (granted : Bool) (db' : Db)
    : Type 0 where
  replayed :
      (row : Admission)
      → select (has_id r) db.admissions ≡ some row
      → same_identity row r ≡ true
      → granted ≡ false
      → db' ≡ db
      → Outcome limits r db granted db'
  full :
      select (has_id r) db.admissions ≡ none
      → max_call_allowance ≤ length db.admissions
      → granted ≡ false
      → db' ≡ pause_update db
      → Outcome limits r db granted db'
  fresh :
      select (has_id r) db.admissions ≡ none
      → length db.admissions < max_call_allowance
      → granted ≡ decided limits r db
      → db' ≡ recorded r granted db
      → Outcome limits r db granted db'

decide_outcome :
    (limits : Limits) (r : Request) (db : Db) {granted : Bool} {db' : Db}
    → decide limits r db ≡ ok (granted, db')
    → (granted ≡ decided limits r db) × (db' ≡ recorded r granted db)
unfolding decide admission_status
decide_outcome limits r db {granted} {db'} h = ground arith

returned :
    (r : Request) (db : Db) (limits : Limits) {granted : Bool} {db' : Db}
    → policy db ≡ ok limits
    → reserve_provider_turn r db ≡ ok (granted, db')
    → Outcome limits r db granted db'
unfolding reserve_provider_turn
returned r db limits {granted} {db'} e h = elim (Option-cases (select (has_id r) db.admissions)) [
  | inr (row, old) ↦ replayed row old (ground arith) (ground arith) (ground arith)
  | inl new ↦ elim (Bool-cases (leb max_call_allowance (length db.admissions))) [
    | inl no_room ↦ full new (ground arith) (ground arith) (ground arith)
    | inr room ↦
        let done = decide_outcome limits r db {granted = granted} {db' = db'} (ground arith) in
        fresh new (ground arith) done.0 done.1
  ]
]

pub reserve-Outcome :
    (r : Request) (db : Db) {granted : Bool} {db' : Db}
    → reserve_provider_turn r db ≡ ok (granted, db')
    → (limits : Limits) × (policy db ≡ ok limits)
      × (is_enabled limits ≡ true)
      × Outcome limits r db granted db'
unfolding reserve_provider_turn
reserve-Outcome r db {granted} {db'} h = elim (Result-cases (policy db)) [
  | inl (limits, e) ↦ (limits, e, ground arith, returned r db limits e h)
  | inr (c, e) ↦ absurd (ground arith)
]

pub within_ceilings-true :
    (limits : Limits) (r : Request) (rows : List Admission) (g : Bool)
    → within_ceilings limits r rows g ≡ true
    → (g ≡ true) × All (λ item. count (counts item.0 r) rows < item.1) limits
unfolding within_ceilings
within_ceilings-true [] r rows g h = (h, tt)
within_ceilings-true ((scope, ceiling) ∷ rest) r rows g h =
    let deeper =
      within_ceilings-true rest r rows (g && ltb (count (counts scope r) rows) ceiling) h in
    (ground (arith, deeper.0), (ground (arith, deeper.0), deeper.1))

-- Every ceiling holds, for every role and every assignment.
abbrev pub AllWithin : Limits → List Admission → Type 0
AllWithin limits rows = All (λ item. (q : Request) → count (counts item.0 q) rows ≤ item.1) limits

-- A row of `r` that counts for `q` too makes both count the same rows.
same_count :
    (scope : Scope) (r q : Request) (rows : List Admission) (granted : Bool)
    → counts scope q (admission_row r granted) ≡ true
    → count (counts scope q) rows ≡ count (counts scope r) rows
same_count run r q rows granted h = refl
same_count role r q rows granted h =
    let e : r.role ≡ q.role = (eq_iff r.role q.role).0 (ground arith) in
    ap (λ (x : String). count (λ (row : Admission). row.granted && row.role == x) rows) (sym e)
same_count assignment r q rows granted h =
    let e : r.assignment_id ≡ q.assignment_id =
      (eq_iff r.assignment_id q.assignment_id).0 (ground arith) in
    ap (λ (x : String). count (λ (row : Admission). row.granted && row.assignment_id == x) rows)
      (sym e)

denied_counts : (scope : Scope) (q r : Request) → counts scope q (admission_row r false) ≡ false
denied_counts run q r = refl
denied_counts role q r = refl
denied_counts assignment q r = refl

AllWithin-insert :
    (limits : Limits) (r : Request) (rows : List Admission) (granted : Bool)
    → (granted ≡ true → All (λ item. count (counts item.0 r) rows < item.1) limits)
    → AllWithin limits rows
    → AllWithin limits (insert (admission_row r granted) rows)
AllWithin-insert [] r rows granted k h = tt
AllWithin-insert ((scope, ceiling) ∷ rest) r rows true k h = (
  λ q. ground (
    arith,
    count-insert (counts scope q) (admission_row r true) rows,
    h.0 q,
    same_count scope r q rows true,
    (k refl).0,
  ),
  AllWithin-insert rest r rows true (λ e. (k e).1) h.1,
)
AllWithin-insert ((scope, ceiling) ∷ rest) r rows false k h = (
  λ q. ground (
    arith,
    count-insert (counts scope q) (admission_row r false) rows,
    h.0 q,
    denied_counts scope q r,
  ),
  AllWithin-insert rest r rows false (λ e. (k e).1) h.1,
)

AllWithin-recorded :
    (limits : Limits) (r : Request) (db : Db) (granted : Bool)
    → granted ≡ decided limits r db
    → AllWithin limits db.admissions
    → AllWithin limits (recorded r granted db).admissions
AllWithin-recorded limits r db true e h =
    AllWithin-insert limits r db.admissions true
      (λ _. (within_ceilings-true limits r db.admissions (not (is_paused db)) (sym e)).1) h
AllWithin-recorded limits r db false e h = AllWithin-insert limits r db.admissions false (λ t. cc) h

pub admissions-pause_update : (db : Db) → (pause_update db).admissions ≡ db.admissions
admissions-pause_update db = ground arith

AllWithin-Outcome :
    (limits : Limits) (r : Request) (db : Db) {granted : Bool} {db' : Db}
    → Outcome limits r db granted db'
    → AllWithin limits db.admissions
    → AllWithin limits db'.admissions
AllWithin-Outcome limits r db (replayed row s i g e) h = rw e h
AllWithin-Outcome limits r db (full s l g e) h = rw (e, admissions-pause_update db) h
AllWithin-Outcome limits r db {granted} (fresh s l g e) h =
    rw e (AllWithin-recorded limits r db granted g h)

policy-Outcome :
    (limits : Limits) (r : Request) (db : Db) {granted : Bool} {db' : Db}
    → Outcome limits r db granted db'
    → policy db' ≡ policy db
policy-Outcome limits r db (replayed row s i g e) = ground arith
policy-Outcome limits r db (full s l g e) = ground arith
policy-Outcome limits r db {granted} (fresh s l g e) = ground arith

-- Under a policy, a reservation that returns leaves the policy as it is, and no scope of any role or
-- assignment has more granted turns than its ceiling.
pub reserve-AllWithin :
    (limits : Limits) (r : Request) (db : Db) {granted : Bool} {db' : Db}
    → policy db ≡ ok limits
    → AllWithin limits db.admissions
    → reserve_provider_turn r db ≡ ok (granted, db')
    → (policy db' ≡ ok limits) × AllWithin limits db'.admissions
reserve-AllWithin limits r db {granted} {db'} p h e =
    let (found, q, enabled, outcome) = reserve-Outcome r db {granted = granted} {db' = db'} e in
    let same : found ≡ limits = ground arith in
    let o : Outcome limits r db granted db' =
      subst (λ l. Outcome l r db granted db') same outcome in
    (cc (policy-Outcome limits r db o), AllWithin-Outcome limits r db o h)
