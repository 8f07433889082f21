-- ===== src/Replay/Bundle.antt =====
-- replay_bundle.py: the signed record of one execution.
pub mod Defs
pub mod Passes
mod Tests
