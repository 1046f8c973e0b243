-- ===== src/Broker/Transport.antt =====
-- Handlers as actions on the broker that may raise. What was committed or sent before a raise stays.
use pi_tmux_orchestrator.Prelude.{ℕ, String, Bool, true, false, [], ◌∷◌, String_eq, if◌then◌else◌}
use pi_tmux_orchestrator.Prelude.Result.{Result, ok, err, ErrorCode, connection_lost}
use pi_tmux_orchestrator.Prelude.Table.{insert}
use pi_tmux_orchestrator.Store.Rows.{WorkflowState}
use pi_tmux_orchestrator.Store.Writes.{Tx, is_paused, settled_state}
use pi_tmux_orchestrator.Broker.State.{Broker, Client, Frame, response, Notice, workflow}

abbrev pub Exec {ℓ} : Type ℓ → Type ℓ
Exec A = Broker → Result A × Broker

abbrev pub continue {ℓ κ} :
    {B : Type ℓ} {A : Type κ}
    → (A → Broker → Result B × Broker)
    → Result A
    → Broker
    → Result B × Broker
continue next (err code) b = (err code, b)
continue next (ok value) b = next value b

infixl 5 ◌>>=◌ ◌>>◌
unfoldable pub ◌>>=◌ {ℓ κ} :
    {B : Type ℓ} {A : Type κ}
    → (Broker → Result A × Broker)
    → (A → Broker → Result B × Broker)
    → Broker
    → Result B × Broker
◌>>=◌ action next b = let (result, b') = action b in continue next result b'

abbrev pub ◌>>◌ {ℓ κ} :
    {B : Type ℓ} {A : Type κ}
    → (Broker → Result A × Broker)
    → (Broker → Result B × Broker)
    → Broker
    → Result B × Broker
action >> next = action >>= λ _. next

abbrev pub pure {ℓ} : {A : Type ℓ} → A → Broker → Result A × Broker
pure a b = (ok a, b)

abbrev pub raise {ℓ} : {A : Type ℓ} → ErrorCode → Broker → Result A × Broker
raise c b = (err c, b)

-- `if condition: …`
abbrev pub when : Bool → Exec (Unit {0}) → Exec (Unit {0})
when true m = m
when false m = pure tt

abbrev pub recover {ℓ} :
    {A : Type ℓ} → (Broker → Result A × Broker) → Result A → Broker → Result A × Broker
recover handler (ok value) b = (ok value, b)
recover handler (err code) b = handler b

-- `try: action`, `except Exception: handler`
unfoldable pub catch {ℓ} :
    {A : Type ℓ}
    → (Broker → Result A × Broker)
    → (Broker → Result A × Broker)
    → Broker
    → Result A × Broker
catch action handler b = let (result, b') = action b in recover handler result b'

-- One `with connect_broker_database(...)` block: commit on return, roll back on an exception.
unfoldable pub transact {ℓ} : {A : Type ℓ} → Tx A → Broker → Result A × Broker
transact tx b = elim (tx b.db) [ ok (a, db) ↦ (ok a, record b { db = db }) | err c ↦ (err c, b) ]

-- `send`: the frame is written, and then awaiting `drain` raises when the link is down.
unfoldable pub send : String → Frame → Exec (Unit {0})
send role frame b = elim b.link [
  | [] ↦ (ok tt, record b { sent = insert (role, frame) b.sent })
  | up ∷ rest ↦
      if up
      then (ok tt, record b { sent = insert (role, frame) b.sent; link = rest })
      else (err connection_lost, record b { sent = insert (role, frame) b.sent; link = rest })
]

abbrev pub reply : Client → String → Bool → String → Exec (Unit {0})
reply client id success status = send client.role (response id success status)

-- `broadcast` drops observers that fail, and never raises.
unfoldable pub broadcast : Notice → Exec (Unit {0})
broadcast notice b = (ok tt, record b { observed = insert notice b.observed })

-- `broadcast_workflow`: a paused run is shown as needing attention.
unfoldable pub broadcast_workflow : WorkflowState → ℕ → Exec (Unit {0})
broadcast_workflow state round b = (
  ok tt,
  record b { observed = insert (workflow (settled_state (is_paused b.db) state) round) b.observed },
)
