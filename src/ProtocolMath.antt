-- ===== src/ProtocolMath.antt =====
-- packages/protocol-math: the integer arithmetic that mirrors the position manager contract.
pub mod Constants
pub mod Types
pub mod Coerce
pub mod Pure
pub mod Tick
pub mod Quote
pub mod Eval
mod Tests
