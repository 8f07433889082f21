-- ===== src/Services.antt =====
-- runtime_services.py: the services of the distributed runtime, and a message's way through them.
pub mod Replies
pub mod Turn
pub mod Accounts
pub mod Follows
pub mod Process
pub mod Executed
pub mod Agreed
pub mod Records
mod Tests
