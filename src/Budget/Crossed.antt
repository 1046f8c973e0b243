-- ===== src/Budget/Crossed.antt =====
-- What a guardrail frame that commits has recorded (broker.py).
use pi_tmux_orchestrator.Prelude.{
  ◌≡◌, refl, inl, inr, Bool, true, false, ◌&&◌, Option, some, none, arith, ◌==◌, String_eq,
  Bool-cases, eq_iff, ◌+◌, String, List, [], ◌∷◌,
}
use pi_tmux_orchestrator.Prelude.Result.{ok, Result-cases}
use pi_tmux_orchestrator.Prelude.Table.{select, exists, insert}
use pi_tmux_orchestrator.Store.Rows.{Db, Assignment, Guardrail}
use pi_tmux_orchestrator.Broker.State.{Client}
use pi_tmux_orchestrator.Worker.Usage.{is_storable}
use pi_tmux_orchestrator.Budget.Policy.{Policy, key, threshold, retained_budget_policy}
use pi_tmux_orchestrator.Store.Writes.{record_event}
use pi_tmux_orchestrator.Budget.Guardrail.{
  GuardrailMessage, same_slot, crossed, insert_or_ignore, for_assignment, guardrail_tx,
  is_configured,
}

-- The crossing belongs to an assignment of the client, and its limit is the one of the retained policy.
pub record IsOwned (client : Client) (m : GuardrailMessage) (db : Db) : Type 0 where
  pub row : Assignment
  pub found : select (λ (a : Assignment). a.id == m.assignment_id) db.assignments ≡ some row
  pub own : row.role ≡ client.role
  pub policy : Policy
  pub retained : retained_budget_policy db.meta.budget_policy ≡ ok policy
  pub configured :
      is_configured (threshold (key m.level "assignment" m.metric) policy.thresholds) m.limit ≡ true

-- One row, with what the frame says, and one more event; the rest is as it was.
pub record IsRecorded (client : Client) (m : GuardrailMessage) (db db' : Db) : Type 0 where
  pub guardrails :
      db'.guardrails
      ≡ insert
          (record {
            assignment_id = m.assignment_id;
            role = client.role;
            level = m.level;
            metric = m.metric;
            observed = m.observed;
            threshold = m.threshold;
          })
          db.guardrails
  pub one_event : db'.last_sequence ≡ db.last_sequence + 1
  pub same_workflow : db'.meta ≡ db.meta
  pub same_roles : db'.roles ≡ db.roles
  pub same_assignments : db'.assignments ≡ db.assignments
  pub same_reports : db'.reports ≡ db.reports
  pub same_activations : db'.activations ≡ db.activations
  pub same_admissions : db'.admissions ≡ db.admissions
  pub same_commands : db'.control_commands ≡ db.control_commands

crossed-IsRecorded :
    (client : Client) (m : GuardrailMessage) (a : Assignment) (db : Db)
    → IsRecorded client m db (crossed client m a db)
unfolding record_event
crossed-IsRecorded client m a db = record {
  guardrails = refl;
  one_event = refl;
  same_workflow = refl;
  same_roles = refl;
  same_assignments = refl;
  same_reports = refl;
  same_activations = refl;
  same_admissions = refl;
  same_commands = refl;
}

-- The row of this assignment and level.
abbrev pub in_slot : String → String → Guardrail → Bool
in_slot assignment_id level g = g.assignment_id == assignment_id && g.level == level

-- What was recorded: nothing if the level of this assignment was crossed before, and else its row.
pub data Recorded (client : Client) (m : GuardrailMessage) (db : Db) : Bool → Db → Type 0 where
  repeated :
      (g : Guardrail)
      → select (in_slot m.assignment_id m.level) db.guardrails ≡ some g
      → Recorded client m db true db
  first :
      {db' : Db}
      → select (in_slot m.assignment_id m.level) db.guardrails ≡ none
      → IsRecorded client m db db'
      → Recorded client m db false db'

exists-select :
    {A : Type 0} (test : A → Bool) (rows : List A)
    → exists test rows ≡ true
    → (x : A) × (select test rows ≡ some x)
unfolding exists select
exists-select test [] h = cc
exists-select test (x ∷ rest) h = elim (Bool-cases (test x)) [
  | inl here ↦ (x, ground (arith, here))
  | inr other ↦
      let (y, found) = exists-select test rest (ground (arith, other)) in
      (y, ground (arith, other, found))
]

select-none :
    {A : Type 0} (test : A → Bool) (rows : List A)
    → exists test rows ≡ false
    → select test rows ≡ none
unfolding exists select
select-none test [] h = refl
select-none test (x ∷ rest) h = ground (arith, select-none test rest)

inserted :
    (client : Client) (m : GuardrailMessage) (a : Assignment) (db : Db) {duplicate : Bool}
    {db' : Db}
    → insert_or_ignore client m a db ≡ ok (duplicate, db')
    → Recorded client m db duplicate db'
inserted client m a db {duplicate} {db'} h =
    elim (Bool-cases (is_storable m.observed && is_storable m.threshold)) [
      | inr large ↦ absurd (ground (arith, large))
      | inl small ↦ elim (Bool-cases (exists (same_slot m) db.guardrails)) [
        | inl there ↦
            let d : duplicate ≡ true = ground (arith, small, there) in
            let same : db' ≡ db = ground (arith, small, there) in
            let (g, found) = exists-select (same_slot m) db.guardrails there in
            rw (d, same) (repeated g found)
        | inr new ↦
            let d : duplicate ≡ false = ground (arith, small, new) in
            let done : db' ≡ crossed client m a db = ground (arith, small, new) in
            rw (d, done)
              (first (select-none (same_slot m) db.guardrails new)
                (crossed-IsRecorded client m a db))
      ]
    ]

-- The assignment's policy and configured limit, for a commit.
for_assignment-Recorded :
    (client : Client) (m : GuardrailMessage) (a : Assignment) (db : Db) {duplicate : Bool}
    {db' : Db}
    → select (λ (a : Assignment). a.id == m.assignment_id) db.assignments ≡ some a
    → for_assignment client m (some a) db ≡ ok (duplicate, db')
    → IsOwned client m db × Recorded client m db duplicate db'
for_assignment-Recorded client m a db {duplicate} {db'} found h =
    elim (Bool-cases (a.role == client.role)) [
      | inr other ↦ absurd (ground (arith, other))
      | inl own ↦ elim (Result-cases (retained_budget_policy db.meta.budget_policy)) [
        | inr (code, e) ↦ absurd (ground (arith, own, e))
        | inl (policy, e) ↦
            elim (Bool-cases (
              is_configured (threshold (key m.level "assignment" m.metric) policy.thresholds)
                m.limit)) [
                  | inr other ↦ absurd (ground (arith, own, e, other))
                  | inl configured ↦ (
                    record {
                      row = a;
                      found = found;
                      own = ground (arith, eq_iff a.role client.role);
                      policy = policy;
                      retained = e;
                      configured = configured;
                    },
                    inserted client m a db (ground (arith, own, e, configured)),
                  )
                ]
      ]
    ]

for_row :
    (client : Client) (m : GuardrailMessage) (row : Option Assignment) (db : Db) {duplicate : Bool}
    {db' : Db}
    → select (λ (a : Assignment). a.id == m.assignment_id) db.assignments ≡ row
    → for_assignment client m row db ≡ ok (duplicate, db')
    → IsOwned client m db × Recorded client m db duplicate db'
for_row client m none db found h = absurd (ground arith)
for_row client m (some a) db found h = for_assignment-Recorded client m a db found h

-- A guardrail frame that commits is about an assignment of the client's role and a limit that the
-- retained policy configures for it; it records nothing if that level of the assignment was crossed
-- before, and else one row with what the frame says, and one event, and changes no other table.
pub guardrail_tx-Recorded :
    (client : Client) (m : GuardrailMessage) (db : Db) {duplicate : Bool} {db' : Db}
    → guardrail_tx client m db ≡ ok (duplicate, db')
    → IsOwned client m db × Recorded client m db duplicate db'
unfolding guardrail_tx
guardrail_tx-Recorded client m db h =
    for_row client m (select (λ (a : Assignment). a.id == m.assignment_id) db.assignments) db refl h
