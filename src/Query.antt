-- ===== src/Query.antt =====
-- src/pinusdb/query: how a query takes in the records of a table.
pub mod Block
pub mod Group
pub mod Items
pub mod Conditions
pub mod Raw
