-- ===== src/Trust/Provenance.antt =====
-- provenance.py: signing a contract and checking its signatures.
pub mod Defs
pub mod Verified
mod Tests
