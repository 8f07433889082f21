-- ===== src/Governance.antt =====
-- governance.py: the policies in front of the runtime core.
mod Defs
pub mod Enforcement
pub mod Violations
mod Tests
unfoldable pub use Defs.*
