-- ===== src/Frontend.antt =====
-- packages/frontend/src: the logic of the web client that does not draw.
pub mod Split
pub mod Windows
pub mod Geometry
pub mod Errors
pub mod Sender
pub mod Tick
mod Tests
