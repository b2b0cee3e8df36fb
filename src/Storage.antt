-- ===== src/Storage.antt =====
-- src-tauri/src/storage/db.rs: the database, as the rows of its tables in the order of their ids.
-- Each operation is what its SQL statement does when it succeeds; that a statement may fail is left
-- to the callers. A key column is unique (migrations/0001_initial.sql).
pub mod Lookup
pub mod Rows
pub mod Devices
pub mod History
pub mod Catalog
pub mod Examples
