-- ===== src/Observability.antt =====
-- observability.py: the trace store and the reconstruction of a replay.
pub mod Defs
pub mod Window
pub mod Order
pub mod Traced
pub mod Proof
mod Tests
