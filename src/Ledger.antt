-- ===== src/Ledger.antt =====
-- evidence_ledger.py and execution_record.py: the chain of evidence hashes.
mod Defs
pub mod Integrity
pub mod Root
pub mod Provenance
mod Tests
unfoldable pub use Defs.*
