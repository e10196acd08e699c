-- ===== src/Storage.antt =====
-- src/pinusdb/storage: how the records of a partition are stored.
pub mod Delta
