-- ===== src/Trust/Producers.antt =====
-- producer_verification.py: the registry of producers and the verification of a contract's producer.
-- The lock makes each method one step.
pub mod Defs
pub mod Registry
pub mod Trusted
mod Tests
