-- ===== src/Indexer.antt =====
-- packages/indexer/src: events of the contracts, written to the tables of the database.
mod PageTests
pub mod Event
pub mod Spec
pub mod Rpc
pub mod Pages
pub mod Router
pub mod Routes
pub mod Poller
pub mod Vault
pub mod Config
pub mod Positions
mod Tests
mod InputTests
