-- ===== src/Gateway.antt =====
-- gateway.py: the receiver, the rate limiter and the gateway that joins them.
pub mod Limiter
pub mod Defs
pub mod Delivery
mod Tests
pub mod Repeats
