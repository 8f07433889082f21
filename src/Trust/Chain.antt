-- ===== src/Trust/Chain.antt =====
-- trust_chain.py: the registry of nodes and the chain of custody.
pub mod Defs
pub mod Custody
mod Tests
