-- ===== src/Lib.antt =====
-- pi-tmux-orchestrator runs coding agents as workers in tmux panes. One broker process per run owns
-- an SQLite database and a Unix socket; each worker (implementer, reviewer and optional specialists:
-- probe, playwright, django, or custom roles) connects to it, gets assignments and context, and sends
-- frames about itself. The broker admits provider turns, asks a worker that stopped without a report
-- once for it, routes reports, and starts the review. This development models the broker's core, all
-- of it under pi_tmux_orchestrator/ of the repository.
--
-- How the code is modelled:
-- - A table is a list of rows in the order of insertion, so that ORDER BY created_at is that order;
--   timestamps are left out (Store/Rows: `initialize_broker_database` of broker_store.py). The JSON
--   columns of `meta` are kept decoded, or as missing or unreadable (Prelude/Json).
-- - One `with connect_broker_database(...)` block is a transaction `Tx`: it returns a value and the
--   new database, or raises and changes nothing (Store/Writes, with `set_meta` and `record_event`).
-- - A handler is an action `Exec` on the broker: its database, the connected clients, the frames
--   written to workers and to observers, and which of the coming writes fail (Broker/State,
--   Broker/Transport: `send` and `reply` of broker.py, `broadcast` of broker_observers.py). As in
--   `send`, the frame is written first and awaiting `drain` may raise after it, so a frame that is
--   counted as written may not arrive. A handler runs to its end before the next frame; what is
--   committed before it raises stays committed. Interleavings of two handlers at an await are not
--   modelled.
-- - A transaction fails only by the code's own checks and the constraints of the tables. That SQLite
--   stays locked past its timeout, which `connect_broker_database` turns into `broker_not_ready`, is
--   not modelled: where a theorem says that a transaction returns, the database was not locked.
-- - A JSON column that is too long for its reader (256 characters for the call policy), repeats a
--   field or does not parse is `unreadable`; any other is kept as the value that its reader gets.
--   Texts that the code writes to such a column are taken to be readable.
-- - Broker/Rules has the rules by which a property is carried through a handler, its errors included.
-- - Texts that only people or models read (assignment texts, capsules, error messages) are left out.
--
-- The parts:
-- - Prelude: Boolean tests, results with the codes of models.py, tables, decoded JSON, text.
-- - Store: broker_store.py; Store/Events is about `record_event` and its pruning.
-- - Admission: call_admission.py. Admission/Policy has the retained ceilings, Admission/Ledger
--   `admission_status`, `reserve_provider_turn` and `extend_call_allowance`; Admission/Ceilings,
--   Admission/Extension and Admission/History prove the properties.
-- - Attention: worker_attention.py (Attention/Validate, Attention/Rows) and broker_attention.py
--   (Attention/Handlers, one function per method). Attention/History runs frames of any workers in any
--   order through `handle_message`, reports that are accepted by their validation left out; OneShot,
--   Reminders, Settlement, Transactions and Frames carry its invariant; Turns is about provider turns.
-- - Roles: role_registry.py (Roles/Identity) and role_contracts.py (Roles/Contracts).
-- - Continuation: continuation.py (Continuation/Policy).
-- - Worker: `_valid_usage` of broker_workflow.py and `_usage_fields` of broker.py (Worker/Usage),
--   `handle_progress` (Worker/Progress), `handle_lifecycle` (Worker/Lifecycle), `handle_delivery_ack`
--   and `mark_handover_uncertain` (Worker/Delivery), and the end of `handle_client` (Worker/Disconnect)
--   of broker.py.
-- - Specialists: the decisions of specialist_activation.py (Specialists/Paths, Specialists/Decide) and
--   their retained rows in broker_store.py (Specialists/Activation). Paths are those of `PurePosixPath`
--   in Python 3.11 to 3.13.
-- - Protocol: protocol.py. Protocol/Report is `validate_report`, with the plans, Protocol/Body the bytes
--   of its JSON text, Protocol/Identity the runtime identity; Protocol/Claims proves what an accepted
--   report may claim.
-- - Workflow: `deliver` and `assign` of broker.py, the pending run states and `maybe_assign_reviewer`
--   of broker_workflow.py (Workflow/Deliver, Workflow/Assign, Workflow/Review); `route_report`
--   and `_deliver_run_state` (Workflow/Route); `handle_report`, its transaction and `_remember_report`
--   (Workflow/Accept); `maybe_start_workflow` (Workflow/Start) and `recover_role` (Workflow/Recover) of
--   broker.py. Workflow/Untouched, Routing and Accepting carry a predicate on the database
--   through deliveries, routes and the acceptance; the other modules are about one property each.
-- - Control: broker_control.py. Control/Request validates a message, Control/Decide has the transaction
--   of `handle_control`, one function per action, and Control/Handle what is awaited around it.
-- - Dispatch: `handle_message` of broker.py (Dispatch/Message), which fences off earlier generations
--   of a worker and calls the handlers of the other parts, and the `hello` of `handle_client`
--   (Dispatch/Connect).
-- - Budget: budgeting.py (Budget/Amount, Budget/Policy) and the guardrail frames of protocol.py and
--   broker.py (Budget/Guardrail). A threshold is a number m / 2 ^ e, as a float is.
--
-- Every loop of the modelled code is over a list or a text; only the digits of a number are counted on
-- fuel (Protocol/Body: 4300, which is as many as Python prints). Numbers are
-- natural numbers; a JSON number keeps its sign and kind, floats are finite binary fractions, and the
-- 64 bits of an SQLite integer and the range of a float are tested where usage is stored. The tokens
-- of `secrets.token_hex` are a parameter of the workflow (the field `token` of `Run`); nothing is
-- assumed of them, and a repeated id is refused by the table.
--
-- Not modelled: sockets, framing, tmux and process control, the dashboard, the command line, the files
-- of a run, Git, and the JavaScript extensions; the planner and the headless RPC transport; and, of
-- the broker, the observers' connections and the evidence hints. What a restart by the
-- operator reads of files, and what a recovery reads of the workspace capsule, are parameters
-- (`restart_check` in Control/Handle, `capsule_check` in Workflow/Recover).
pub mod Prelude
pub mod Store
pub mod Admission
pub mod Broker
pub mod Attention
pub mod Roles
pub mod Continuation
pub mod Protocol
pub mod Worker
pub mod Specialists
pub mod Workflow
pub mod Control
pub mod Budget
pub mod Dispatch
