-- ===== src/Postgres.antt =====
-- internal/store/postgres: the store over an SQL database.
pub mod Sql
pub mod Scans
pub mod Tables
pub mod Stored
pub mod Scanned
pub mod ReadBack
pub mod Unreadable
pub mod Lookups
pub mod Calls
pub mod Bootstrap
pub mod Contacts
pub mod Threads
pub mod Messages
pub mod Receipts
pub mod Suppressions
pub mod Deliveries
