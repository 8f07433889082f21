-- ===== src/Execution.antt =====
-- execution_process.py: the loop that joins the replay authority, the trust layer, the core and the
-- ledger.
pub mod Defs
pub mod Executed
pub mod Loop
pub mod Spent
pub mod Recorded
mod Tests
