-- ===== src/Reads.antt =====
-- The options that steer a read: src/directed_read.rs.
pub mod Directed
