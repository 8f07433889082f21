-- ===== src/Transport.antt =====
-- transport.py: the frames on a socket, and the circuit breaker.
pub mod Framing
pub mod Delivery
pub mod Roundtrip
pub mod Breaker
pub mod Outage
pub mod Sender
pub mod Stale
mod Tests
