-- ===== src/Gateway/Limiter.antt =====
-- `_RateLimiter`, the token bucket of gateway.py and hybrid_gateway.py.
pub mod Defs
pub mod Bounds
mod Tests
