-- ===== src/Scripts.antt =====
-- The scripts beside the gateway that are about its serial line.
pub mod Scan
pub mod Rs485
