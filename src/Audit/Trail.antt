-- ===== src/Audit/Trail.antt =====
-- audit_trail.py: `AuditEntry` and `MerkleAuditTrail`.
pub mod Update
pub mod Defs
mod Levels
mod Grown
mod Numbers
pub mod Built
pub mod Checks
mod Tests
