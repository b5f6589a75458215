-- ===== src/Monitor.antt =====
-- The monitor (internal/monitor): anomaly signals, their correlation, incidents.
pub mod Signal
pub mod Baselines
pub mod Detect
pub mod Correlator
pub mod Incidents
pub mod Poller
pub mod Sse
pub mod Snapshot
pub mod Api
pub mod History
