-- ===== src/Worker.antt =====
-- What a worker reports of itself: usage, progress, lifecycle, acknowledged deliveries, and the loss
-- of its connection (broker.py).
pub mod Usage
pub mod Progress
pub mod Lifecycle
pub mod Delivery
pub mod Disconnect
pub mod Boundaries
pub mod Acknowledged
pub mod Left
mod Examples
