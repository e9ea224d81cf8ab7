-- ===== src/Session.antt =====
-- src/session/catalog.ts: session files, and the catalog of the sessions that they hold.
pub mod Entries
pub mod Info
pub mod Activity
pub mod Described
pub mod Paths
pub mod Catalog
pub mod Listing
pub mod Runs
pub mod Index
pub mod Unchanged
mod Tests
