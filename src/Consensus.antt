-- ===== src/Consensus.antt =====
-- consensus_simulation.py: the nodes, their attestations, and the engine that counts them.
pub mod Node
pub mod Engine
pub mod Votes
pub mod Agreement
pub mod Nodes
pub mod Honest
pub mod Unanimous
mod Tests
