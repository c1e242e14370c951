-- ===== src/Edge.antt =====
-- The edge agent (edge-agent/iot_cx_agent).
pub mod Outbox
pub mod Queue
pub mod State
pub mod Sampling
