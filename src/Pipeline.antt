-- ===== src/Pipeline.antt =====
-- hybrid_gateway.py, quantum_producer.py, translation_layer.py, models.py and degraded_runtime.py: one
-- transmission from a message to its acknowledgement.
pub mod Models
pub mod Translation
pub mod Transmit
pub mod Posture
pub mod Accepted
pub mod Once
pub mod Delivered
mod Tests
