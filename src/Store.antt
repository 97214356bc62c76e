-- ===== src/Store.antt =====
-- The package store: its rows, its tables and the operations on them.
pub mod Models
pub mod Tables
pub mod Db
pub mod Insert
pub mod WellFormed
pub mod Period
pub mod Retention
pub mod Summaries
pub mod Query
