-- ===== src/Replay.antt =====
-- The replay protection of replay_registry.py, canonical_replay_authority.py and replay_enforcer.py.
pub mod Registry
pub mod Authority
pub mod Enforcer
pub mod Deterministic
pub mod Bundle
