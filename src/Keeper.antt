-- ===== src/Keeper.antt =====
-- packages/keeper: what the keeper decides on a snapshot of the database, and what it submits.
pub mod Dedup
pub mod World
pub mod Scanner
pub mod Loop
pub mod Executor
pub mod Serializer
mod Tests
mod QueueTests
