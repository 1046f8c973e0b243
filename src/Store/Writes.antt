-- ===== src/Store/Writes.antt =====
-- `set_meta` and `record_event` of broker_store.py, and transactions.
use pi_tmux_orchestrator.Prelude.{
  ℕ, ◌+◌, ◌-◌, String, Bool, true, false, Option, some, List, [], ◌∷◌, leb, ◌==◌, String_eq, ℕ_eq,
  Option_eq, if◌then◌else◌,
}
use mathlib.Core.Path.{◌≡◌, refl}
use pi_tmux_orchestrator.Prelude.Result.{Result, ok, err, ErrorCode}
use pi_tmux_orchestrator.Prelude.Table.{insert}
use pi_tmux_orchestrator.Store.Rows.{Db, Event, WorkflowState}

abbrev pub max_broker_events : ℕ
max_broker_events = 4096

-- DELETE FROM … WHERE test
unfoldable pub delete {ℓ} : {A : Type ℓ} → (A → Bool) → List A → List A
delete test [] = []
delete test (x ∷ xs) = let rest = delete test xs in if test x then rest else x ∷ rest

-- The columns that a caller of `record_event` names.
pub record EventArguments : Type 0 where
  pub role : Option String
  pub round_number : Option ℕ
  pub assignment_id : Option String
  pub delivery_id : Option String
  pub status : String

unfoldable pub record_event : String → EventArguments → Db → Db
unfolding delete
record_event event a db =
    let sequence = db.last_sequence + 1 in
    let row : Event = record {
      sequence = sequence;
      event = event;
      role = a.role;
      round = a.round_number;
      assignment_id = a.assignment_id;
      delivery_id = a.delivery_id;
      status = a.status;
    } in
    record db {
      events =
          delete (λ (e : Event). leb e.sequence (sequence - max_broker_events))
            (insert row db.events);
      last_sequence = sequence;
    }

abbrev pub is_paused : Db → Bool
is_paused db = db.meta.call_admission_paused == some "1"

-- The value that `set_meta` stores: a paused run is never marked active or ready.
abbrev pub settled_state : Bool → WorkflowState → WorkflowState
settled_state true WorkflowState.active = WorkflowState.needs_attention
settled_state true WorkflowState.ready = WorkflowState.needs_attention
settled_state _ state = state

-- set_meta(database, "workflow_state", state)
unfoldable pub set_workflow_state : WorkflowState → Db → Db
set_workflow_state state db = record db {
  meta = record db.meta { workflow_state = settled_state (is_paused db) state };
}

-- set_meta(database, "round", str(round))
unfoldable pub set_round : ℕ → Db → Db
set_round round db = record db { meta = record db.meta { round = round } }

-- A transaction: the statements of one `with connect_broker_database(...)` block. An exception rolls
-- them back, so that an error carries no database.
abbrev pub Tx {ℓ} : Type ℓ → Type ℓ
Tx A = Db → Result (A × Db)

infixl 5 ◌>>=◌ ◌>>◌
abbrev pub ◌>>=◌ {ℓ κ} : {A : Type ℓ} {B : Type κ} → Tx A → (A → Tx B) → Tx B
◌>>=◌ m f db = elim (m db) [ ok (a, db') ↦ f a db' | err c ↦ err c ]

abbrev pub ◌>>◌ {ℓ} : {B : Type ℓ} → Tx (Unit {0}) → Tx B → Tx B
m >> k = m >>= λ _. k

abbrev pub pure {ℓ} : {A : Type ℓ} → A → Tx A
pure a db = ok (a, db)

abbrev pub raise {ℓ} : {A : Type ℓ} → ErrorCode → Tx A
raise c db = err c

abbrev pub lift {ℓ} : {A : Type ℓ} → Result A → Tx A
lift (ok a) db = ok (a, db)
lift (err c) db = err c

abbrev pub gets {ℓ} : {A : Type ℓ} → (Db → A) → Tx A
gets f db = ok (f db, db)

abbrev pub modify : (Db → Db) → Tx (Unit {0})
modify f db = ok (tt, f db)

abbrev pub when : Bool → Tx (Unit {0}) → Tx (Unit {0})
when true m = m
when false m = pure tt

-- A transaction that commits, taken apart at its first statement.
pub bind-eq-ok {ℓ κ} :
    {A : Type ℓ} {B : Type κ} (m : Tx A) (f : A → Tx B) (db : Db) {b : B} {db' : Db}
    → (m >>= f) db ≡ ok (b, db')
    → (a : A) × (mid : Db) × (m db ≡ ok (a, mid)) × (f a mid ≡ ok (b, db'))
bind-eq-ok {A} {B} m f db {b} {db'} h = go (m db) refl h
  where
    go :
        (r : Result (A × Db))
        → m db ≡ r
        → (elim r as (λ _. Result (B × Db)) [ ok (a, mid) ↦ f a mid | err c ↦ err c ]) ≡ ok (b, db')
        → (a : A) × (mid : Db) × (m db ≡ ok (a, mid)) × (f a mid ≡ ok (b, db'))
    go (ok (a, mid)) e k = (a, mid, e, k)
    go (err c) e k = cc
