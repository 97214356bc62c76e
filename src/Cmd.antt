-- ===== src/Cmd.antt =====
-- cmd/: the resolution of a height, the backfill, and the recovery of a gap. The rest of the package is wiring and printing.
pub mod Search
pub mod Resolve
pub mod Backfill
pub mod Recover
pub mod Calls
pub mod Timed
pub mod Startup
pub mod Command
pub mod Output
pub mod Cells
pub mod Query
