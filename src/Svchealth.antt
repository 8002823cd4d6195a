-- ===== src/Svchealth.antt =====
-- Package svchealth (pkg/svchealth): health from ping reachability.
pub mod Types
pub mod Compute
pub mod Node
pub mod Gocb
pub mod Handler
