-- ===== src/Obslog.antt =====
-- Log levels, addresses and lines (pkg/obslog).
pub mod Levels
pub mod Addresses
pub mod Formats
pub mod Events
pub mod Human
