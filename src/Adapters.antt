-- ===== src/Adapters.antt =====
-- adapters.py: the outputs of producers as contracts.
pub mod Values
pub mod Defs
pub mod Rounding
pub mod Accepted
mod Tests
