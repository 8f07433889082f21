-- ===== src/Audit.antt =====
-- audit_trail.py: the Merkle audit trail.
pub mod Merkle
pub mod Inclusion
pub mod Trail
mod Tests
