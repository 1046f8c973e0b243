-- ===== src/Broker.antt =====
-- broker.py and broker_observers.py: the broker's state, what it sends, and its transactions.
pub mod State
pub mod Transport
pub mod Rules
