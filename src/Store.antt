-- ===== src/Store.antt =====
-- internal/store: the SQLite tables, each a list of records in row order, and the statements that
-- the Go code runs on them. A statement that the driver fails is the caller's affair: the handlers
-- take such failures as inputs.
pub mod Time
pub mod Types
pub mod Queue
pub mod Domains
pub mod Usage
pub mod SmtpUsers
pub mod Users
pub mod Webhooks
pub mod Fixtures
mod Examples
