-- ===== src/Server.antt =====
-- The server: sessions, players and tables together.
pub mod State
pub mod Players
pub mod Sessions
pub mod Handlers
pub mod Login
pub mod Tables
pub mod Consistent
pub mod Requested
pub mod Membership
pub mod Kept
pub mod Runs
pub mod Stable
pub mod Expiry
pub mod Queues
pub mod Strangers
