-- ===== src/Replay/Enforcer.antt =====
-- replay_enforcer.py: the cache of artifacts with expiry.
pub mod Defs
pub mod Bounds
pub mod Repeats
pub mod Full
mod Tests
