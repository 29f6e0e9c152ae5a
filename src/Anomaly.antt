-- ===== src/Anomaly.antt =====
-- pkg/anomaly: alerts on the rate and on the order of tool calls.
pub mod Velocity
pub mod Sequence
