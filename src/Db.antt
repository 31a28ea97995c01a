-- ===== src/Db.antt =====
-- db: the storage engine's own state. Each child is a part of the package.
pub mod Registry
pub mod Engine
pub mod Batch
pub mod Transaction
pub mod Scan
