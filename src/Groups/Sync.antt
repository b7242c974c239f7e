-- ===== src/Groups/Sync.antt =====
-- crates/ac-groups/src/sync.rs: how a node asks its peers for group data and answers them. The store
-- that it reads and writes is an interface, and the clock is an argument.
pub mod Wire
pub mod Fetches
pub mod Heads
pub mod Machine
pub mod Bounds
pub mod Drain
pub mod Steps
pub mod Keeps
