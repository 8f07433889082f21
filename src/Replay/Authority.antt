-- ===== src/Replay/Authority.antt =====
-- canonical_replay_authority.py: the single authority for replay verdicts, over the registry.
mod Defs
pub mod Verdicts
pub mod Lineage
mod Tests
unfoldable pub use Defs.*
