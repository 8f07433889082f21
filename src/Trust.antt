-- ===== src/Trust.antt =====
-- node_identity.py, trust_chain.py, provenance.py and producer_verification.py: who signed what.
pub mod Identity
pub mod Samples
pub mod Chain
pub mod Provenance
pub mod Producers
