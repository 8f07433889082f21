-- ===== src/Replay/Deterministic.antt =====
-- deterministic_replay.py: the comparison of replays.
pub mod Defs
pub mod Agreement
mod Tests
