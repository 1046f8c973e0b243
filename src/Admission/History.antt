-- ===== src/Admission/History.antt =====
-- Reservations and extensions in any order, from a run's first admission on.
use pi_tmux_orchestrator.Prelude.{
  ◌<◌, ◌≡◌, refl, ◌∙◌, Bool, true, false, not, none, some, [], ◌∷◌, List, arith, ltb, lt→ltb, ◌↔◌,
  ◌||◌, Bool-cases, inl, inr, String_eq, is_some, ◌==◌,
}
use pi_tmux_orchestrator.Prelude.Result.{ok}
use pi_tmux_orchestrator.Prelude.Json.{Value}
use pi_tmux_orchestrator.Prelude.Table.{
  All, select, count, insert, length, select-insert-some, exists,
}
use pi_tmux_orchestrator.Store.Rows.{Db, Admission, RoleRow, Assignment}
use pi_tmux_orchestrator.Store.Writes.{is_paused}
use pi_tmux_orchestrator.Admission.Policy.{Limits, max_call_allowance}
use pi_tmux_orchestrator.Admission.Ledger.{
  Request, policy, is_enabled, is_bad_pause, decide, admission_status, admission_row,
  reserve_provider_turn, extend_call_allowance, within_ceilings, counts, pause_update,
}
use pi_tmux_orchestrator.Admission.Ceilings.{
  has_id, decided, recorded, Outcome, replayed, full, fresh, reserve-Outcome, AllWithin,
  reserve-AllWithin, within_ceilings-true, admissions-pause_update,
}
use pi_tmux_orchestrator.Admission.Extension.{extend_outcome, extend-AllWithin}

-- One committed call of the two operations that write the ledger.
pub data Step (db : Db) (db' : Db) : Type 0 where
  reserved :
      (r : Request) (granted : Bool) → reserve_provider_turn r db ≡ ok (granted, db') → Step db db'
  raised : (additional : Value) → extend_call_allowance additional db ≡ ok (tt, db') → Step db db'

pub data Reach (db : Db) : Db → Type 0 where
  here : Reach db db
  next : {a b : Db} → Reach db a → Step a b → Reach db b

abbrev pub IsWithin : Db → Type 0
IsWithin db = (limits : Limits) × (policy db ≡ ok limits) × AllWithin limits db.admissions

Step-IsWithin : {a b : Db} → Step a b → IsWithin a → IsWithin b
Step-IsWithin {a} {b} (reserved r granted e) (limits, p, h) =
    let kept = reserve-AllWithin limits r a {granted = granted} {db' = b} p h e in
    (limits, kept.0, kept.1)
Step-IsWithin {a} {b} (raised additional e) (limits, p, h) =
    extend-AllWithin limits additional a {db' = b} p h e

AllWithin-empty : (limits : Limits) → AllWithin limits []
unfolding count
AllWithin-empty [] = tt
AllWithin-empty ((scope, n) ∷ rest) = (λ q. omega arith, AllWithin-empty rest)

Reach-keeps : {a b : Db} → Reach a b → IsWithin a → IsWithin b
Reach-keeps here h = h
Reach-keeps (next r s) h = Step-IsWithin s (Reach-keeps r h)

-- From an empty ledger under a policy, after any reservations and extensions, the policy is readable
-- and in no scope of any role or assignment are more turns granted than its ceiling allows.
pub Reach-IsWithin :
    (limits : Limits) {a b : Db} → policy a ≡ ok limits → a.admissions ≡ [] → Reach a b → IsWithin b
Reach-IsWithin limits {a} p empty r = Reach-keeps r (limits, p, rw empty (AllWithin-empty limits))

admissions-recorded :
    (r : Request) (g : Bool) (a : Db)
    → (recorded r g a).admissions ≡ insert (admission_row r g) a.admissions
admissions-recorded r true a = refl
admissions-recorded r false a = refl

or_false : (b : Bool) → b ≡ b || false
or_false true = refl
or_false false = refl

or_true : (b : Bool) → true ≡ b || true
or_true true = refl
or_true false = refl

is_paused-recorded :
    (r : Request) (g : Bool) (a : Db) → is_paused (recorded r g a) ≡ is_paused a || not g
is_paused-recorded r true a = or_false (is_paused a)
is_paused-recorded r false a = or_true (is_paused a)

select-Outcome :
    (limits : Limits) (q r : Request) (a b : Db) {granted : Bool} (row : Admission)
    → Outcome limits r a granted b
    → select (has_id q) a.admissions ≡ some row
    → select (has_id q) b.admissions ≡ some row
select-Outcome limits q r a b row (replayed x s i g e) h = rw e h
select-Outcome limits q r a b row (full s l g e) h = rw (e, admissions-pause_update a) h
select-Outcome limits q r a b {granted} row (fresh s l g e) h =
    rw (e, admissions-recorded r granted a)
      (select-insert-some (has_id q) (admission_row r granted) a.admissions h)

select-Step :
    (q : Request) {a b : Db} (row : Admission)
    → Step a b
    → select (has_id q) a.admissions ≡ some row
    → select (has_id q) b.admissions ≡ some row
select-Step q {a} {b} row (reserved r granted e) h =
    let (limits, p, enabled, o) = reserve-Outcome r a {granted = granted} {db' = b} e in
    select-Outcome limits q r a b row o h
select-Step q {a} {b} row (raised additional e) h =
    let (extra, found, i, p, enabled, paused, done, read) =
      extend_outcome additional a {db' = b} e in
    rw done h

select-Reach :
    (q : Request) {a b : Db} (row : Admission)
    → Reach a b
    → select (has_id q) a.admissions ≡ some row
    → select (has_id q) b.admissions ≡ some row
select-Reach q row here h = h
select-Reach q row (next r s) h = select-Step q row s (select-Reach q row r h)

known-Outcome :
    (limits : Limits) (r : Request) (a b : Db) {granted : Bool} (row : Admission)
    → select (has_id r) a.admissions ≡ some row
    → Outcome limits r a granted b
    → (granted ≡ false) × (b ≡ a)
known-Outcome limits r a b row h (replayed x s i g e) = (g, e)
known-Outcome limits r a b row h (full s l g e) = cc
known-Outcome limits r a b row h (fresh s l g e) = cc

-- A request whose id has a receipt is never granted again: whatever reservations and extensions were
-- committed since, a call that returns denies it and writes nothing.
pub reserve_once :
    (q : Request) (row : Admission) {a b c : Db} {granted : Bool}
    → select (has_id q) a.admissions ≡ some row
    → Reach a b
    → reserve_provider_turn q b ≡ ok (granted, c)
    → (granted ≡ false) × (c ≡ b)
reserve_once q row {a} {b} {c} {granted} h r e =
    let (limits, p, enabled, o) = reserve-Outcome q b {granted = granted} {db' = c} e in
    known-Outcome limits q b c {granted = granted} row (select-Reach q row r h) o

denied :
    (limits : Limits) (r : Request) (rows : List Admission)
    → within_ceilings limits r rows false ≡ false
unfolding within_ceilings
denied [] r rows = refl
denied ((scope, n) ∷ rest) r rows = denied rest r rows

still_paused : (a : Db) → is_paused a ≡ true → is_paused (pause_update a) ≡ true
still_paused a h = elim (Bool-cases (is_some a.meta.call_admission_paused)) [
  | inl there ↦ rw there refl
  | inr missing ↦ rw missing h
]

paused-Outcome :
    (limits : Limits) (r : Request) (a b : Db) {granted : Bool}
    → is_paused a ≡ true
    → Outcome limits r a granted b
    → (granted ≡ false) × (is_paused b ≡ true)
paused-Outcome limits r a b h (replayed x s i g e) = (g, rw e h)
paused-Outcome limits r a b h (full s l g e) = (g, rw e (still_paused a h))
paused-Outcome limits r a b {granted} h (fresh s l g e) =
    let d : granted ≡ false = g ∙ rw h (denied limits r a.admissions) in (d, rw (e, d) refl)

-- While the run is paused no reservation is granted, and none lifts the pause.
pub reserve_paused :
    (r : Request) (a : Db) {b : Db} {granted : Bool}
    → is_paused a ≡ true
    → reserve_provider_turn r a ≡ ok (granted, b)
    → (granted ≡ false) × (is_paused b ≡ true)
reserve_paused r a {b} {granted} h e =
    let (limits, p, enabled, o) = reserve-Outcome r a {granted = granted} {db' = b} e in
    paused-Outcome limits r a b {granted = granted} h o

room_granted :
    (limits : Limits) (r : Request) (rows : List Admission)
    → All (λ item. count (counts item.0 r) rows < item.1) limits
    → within_ceilings limits r rows true ≡ true
unfolding within_ceilings
room_granted [] r rows h = refl
room_granted ((scope, n) ∷ rest) r rows h =
    let room : ltb (count (counts scope r) rows) n ≡ true = lt→ltb _ _ h.0 in
    rw room (room_granted rest r rows h.1)

decided_iff :
    (limits : Limits) (r : Request) (db : Db)
    → (decided limits r db ≡ true) ↔ (
        (is_paused db ≡ false)
        × All (λ item. count (counts item.0 r) db.admissions < item.1) limits)
decided_iff limits r db = (
  λ h.
      let known = within_ceilings-true limits r db.admissions (not (is_paused db)) h in
      (ground (arith, known.0), known.1),
  λ h. rw h.0 (room_granted limits r db.admissions h.1),
)

-- Under an enforced policy with a readable pause, a request of a known role and assignment whose id is
-- new, in a table with room, is always answered: it is granted exactly when the run is not paused and, in every scope of the
-- policy, fewer turns of the request are granted than the ceiling; its receipt is appended with the
-- answer, and the run is paused afterwards exactly when it was paused before or the answer is no.
pub reserve_decision :
    (limits : Limits) (r : Request) (db : Db)
    → policy db ≡ ok limits
    → is_enabled limits ≡ true
    → is_bad_pause true db.meta.call_admission_paused ≡ false
    → select (has_id r) db.admissions ≡ none
    → length db.admissions < max_call_allowance
    → exists (λ (x : RoleRow). x.role == r.role) db.roles ≡ true
    → exists (λ (a : Assignment). a.id == r.assignment_id) db.assignments ≡ true
    → (granted : Bool) × (db' : Db) × (reserve_provider_turn r db ≡ ok (granted, db'))
      × ((granted ≡ true) ↔ (
          (is_paused db ≡ false)
          × All (λ item. count (counts item.0 r) db.admissions < item.1) limits))
      × (db'.admissions ≡ insert (admission_row r granted) db.admissions)
      × (is_paused db' ≡ is_paused db || not granted)
unfolding reserve_provider_turn decide admission_status
reserve_decision limits r db p enabled good new room its_role its_work = (
  decided limits r db,
  recorded r (decided limits r db) db,
  ground arith,
  decided_iff limits r db,
  admissions-recorded r (decided limits r db) db,
  is_paused-recorded r (decided limits r db) db,
)
