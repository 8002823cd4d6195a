-- ===== src/Failover.antt =====
-- Package state (pkg/state): the switch decision over a stream of health verdicts.
pub mod Machine
pub mod History
