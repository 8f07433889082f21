-- ===== src/Contract.antt =====
-- execution_contract.py: the contract that every producer's output is wrapped in, and its validation.
mod Semver
mod Defs
pub mod Validity
mod Tests
unfoldable pub use Semver.*
unfoldable pub use Defs.*
