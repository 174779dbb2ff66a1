-- ===== src/Models.antt =====
-- internal/db/models: the rows of the database and the queries on them.
pub mod Int64Array
pub mod Rows
pub mod Gorm
pub mod Writes
pub mod Queries
pub mod DongleId
pub mod Fixtures
