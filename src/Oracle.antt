-- ===== src/Oracle.antt =====
-- packages/oracle-base/src: publishing prices on the chain.
pub mod Loop
mod Tests
