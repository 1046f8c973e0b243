-- ===== src/Specialists/Immutable.antt =====
-- A recorded decision stays (broker_store.py).
use pi_tmux_orchestrator.Prelude.{
  ◌≡◌, refl, ap, ◌∙◌, true, Option, none, some, String_eq, ℕ_eq, arith, eq_iff, eq_refl,
  Option-cases, inl, inr, if◌then◌else◌,
}
use pi_tmux_orchestrator.Prelude.Result.{ok}
use pi_tmux_orchestrator.Prelude.Table.{
  select, insert, select-insert-some, select-insert-none, select_sound,
}
use pi_tmux_orchestrator.Store.Rows.{Db, Activation}
use pi_tmux_orchestrator.Store.Writes.{record_event}
use pi_tmux_orchestrator.Specialists.Activation.{
  is_same_slot, is_same_decision, activated, record_specialist_activation,
}

-- The decision of a role in a round.
abbrev pub decision_of : Activation → Db → Option Activation
decision_of a db = select (is_same_slot a) db.activations

same-eq : (a x : Activation) → is_same_slot a x ≡ true → is_same_decision a x ≡ true → x ≡ a
same-eq a x s d =
    let r : x.role ≡ a.role = ground (arith, eq_iff x.role a.role) in
    let n : x.round ≡ a.round = ground arith in
    let k : x.decision ≡ a.decision = ground (arith, eq_iff x.decision a.decision) in
    let i : x.rule_id ≡ a.rule_id = ground (arith, eq_iff x.rule_id a.rule_id) in
    let f : x.forced ≡ a.forced = ground arith in cc

own_slot : (a : Activation) → is_same_slot a a ≡ true
own_slot a = ground (arith, eq_refl a.role)

activated-rows : (a : Activation) (db : Db) → (activated a db).activations ≡ insert a db.activations
unfolding record_event
activated-rows a db = refl

-- A call that returns leaves exactly the asked decision as the one of its role and round.
pub decision_of-record_specialist_activation :
    (a : Activation) (db : Db) {u : Unit {0}} {db' : Db}
    → record_specialist_activation a db ≡ ok (u, db')
    → decision_of a db' ≡ some a
unfolding record_specialist_activation
decision_of-record_specialist_activation a db {u} {db'} h = elim (Option-cases (decision_of a db)) [
  | inl fresh ↦
      let done : db' ≡ activated a db = ground (arith, fresh) in
      rw (done, activated-rows a db)
        (select-insert-none (is_same_slot a) a db.activations fresh
          ∙ ap (λ b. if b then some a else none) (own_slot a))
  | inr (x, there) ↦
      let same : db' ≡ db = ground (arith, there) in
      let agreed : is_same_decision a x ≡ true = ground (arith, there) in
      let mine : is_same_slot a x ≡ true =
        select_sound (is_same_slot a) db.activations {x = x} there in
      rw same (there ∙ ap some (same-eq a x mine agreed))
]

-- A decision that is there, of any role and round, stays whatever is recorded later.
pub record_specialist_activation_keeps :
    (a x y : Activation) (db : Db) {u : Unit {0}} {db' : Db}
    → record_specialist_activation a db ≡ ok (u, db')
    → decision_of x db ≡ some y
    → decision_of x db' ≡ some y
unfolding record_specialist_activation
record_specialist_activation_keeps a x y db {u} {db'} h there =
    elim (Option-cases (decision_of a db)) [
      | inl fresh ↦
          let done : db' ≡ activated a db = ground (arith, fresh) in
          rw (done, activated-rows a db)
            (select-insert-some (is_same_slot x) a db.activations {y = y} there)
      | inr (z, known) ↦ let same : db' ≡ db = ground (arith, known) in rw same there
    ]
