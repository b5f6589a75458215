-- ===== src/Simulator.antt =====
-- The simulator (internal/simulator): fault engine, queues and service workers.
pub mod Fault
pub mod Queue
pub mod Payment
pub mod Fulfillment
pub mod Notification
pub mod Order
pub mod Metrics
pub mod Pipeline
