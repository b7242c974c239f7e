-- ===== src/Groups.antt =====
-- crates/ac-groups: groups, their membership chains and the members' standings.
pub mod Id
pub mod Standing
pub mod Members
pub mod Chain
pub mod Sync
pub mod Store
