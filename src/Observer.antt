-- ===== src/Observer.antt =====
-- Command svchealthcheck (cmd/svchealthcheck): the poll loop and the switch that it drives.
pub mod Actuators
pub mod Switching
pub mod Reconcile
pub mod Loop
pub mod System
pub mod Startup
pub mod Serving
