-- ===== src/Store/Events.antt =====
-- The event log of `record_event`: bounded, in order, and holding the newest events.
use pi_tmux_orchestrator.Prelude.{
  ℕ, ◌+◌, ◌-◌, ◌≤◌, max, String, ◌≡◌, refl, List, [], ◌∷◌, arith, leb, subst, Bool-cases, inl, inr,
}
use pi_tmux_orchestrator.Prelude.Table.{insert, length}
use pi_tmux_orchestrator.Store.Rows.{Db, Event}
use pi_tmux_orchestrator.Store.Writes.{EventArguments, record_event, delete, max_broker_events}

-- The sequence numbers are `first`, `first` + 1, …, `last`.
abbrev Consecutive : ℕ → List Event → ℕ → Type 0
Consecutive first [] last = first ≡ last + 1
Consecutive first (e ∷ es) last = (e.sequence ≡ first) × Consecutive (first + 1) es last

Consecutive-insert :
    (first : ℕ) (es : List Event) (last : ℕ) (e : Event)
    → e.sequence ≡ last + 1
    → Consecutive first es last
    → Consecutive first (insert e es) (last + 1)
Consecutive-insert first [] last e h c = (omega arith, omega arith)
Consecutive-insert first (x ∷ es) last e h c = (c.0, Consecutive-insert (first + 1) es last e h c.1)

Consecutive-delete :
    (bound first : ℕ) (es : List Event) (last : ℕ)
    → bound ≤ last
    → Consecutive first es last
    → Consecutive (max first (bound + 1)) (delete (λ (e : Event). leb e.sequence bound) es) last
unfolding delete
Consecutive-delete bound first [] last h c = omega arith
Consecutive-delete bound first (e ∷ es) last h c = elim (Bool-cases (leb e.sequence bound)) [
  | inl old ↦ rw old (
      subst (λ k. Consecutive k (delete (λ (e : Event). leb e.sequence bound) es) last)
        (ground arith) (Consecutive-delete bound (first + 1) es last h c.1))
  | inr new ↦ rw new (
    ground arith,
    subst (λ k. Consecutive k (delete (λ (e : Event). leb e.sequence bound) es) last) (ground arith)
        (Consecutive-delete bound (first + 1) es last h c.1),
  )
]

-- The log holds exactly the last `max_broker_events` events recorded, oldest first.
abbrev pub IsLog : Db → Type 0
IsLog db = Consecutive (db.last_sequence - max_broker_events + 1) db.events db.last_sequence

Consecutive-length :
    (first : ℕ) (es : List Event) (last : ℕ)
    → Consecutive first es last
    → first + length es ≡ last + 1
Consecutive-length first [] last c = omega arith
Consecutive-length first (e ∷ es) last c = omega (arith, Consecutive-length (first + 1) es last c.1)

-- Recording an event keeps the log: one more number, the newest 4096 events in order, no gap.
pub record_event-IsLog :
    (event : String) (a : EventArguments) (db : Db) → IsLog db → IsLog (record_event event a db)
unfolding record_event
record_event-IsLog event a db h =
    subst (λ k. Consecutive k (record_event event a db).events (db.last_sequence + 1)) (omega arith)
      (Consecutive-delete (db.last_sequence + 1 - max_broker_events) _ _ (db.last_sequence + 1)
        (omega arith) (Consecutive-insert _ db.events db.last_sequence _ refl h))

-- A log never holds more than `max_broker_events` events.
pub length-IsLog : (db : Db) → IsLog db → length db.events ≤ max_broker_events
length-IsLog db h = omega (arith, Consecutive-length _ db.events db.last_sequence h)
