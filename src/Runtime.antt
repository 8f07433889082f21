-- ===== src/Runtime.antt =====
-- runtime_core.py: the blind runtime core.
mod Defs
pub mod Outcomes
mod Tests
unfoldable pub use Defs.*
