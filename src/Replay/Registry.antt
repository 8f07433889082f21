-- ===== src/Replay/Registry.antt =====
-- replay_registry.py: the durable replay registry. A clock reading, a time of issue and the TTL are
-- integers of one unit of time. The lock makes each method one step, so a method is a function of
-- the state. `disk` is the backing file.
mod File
mod Defs
pub mod Invariant
pub mod Decisions
pub mod Restart
mod Tests
unfoldable pub use File.*
unfoldable pub use Defs.*
