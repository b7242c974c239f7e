-- ===== src/Groups/Store.antt =====
-- crates/ac-groups/src/store.rs: what a node holds about its groups, in four tables.
pub mod Tables
pub mod Reads
pub mod Intake
pub mod Writes
pub mod Numbered
pub mod Loaded
pub mod Coherent
pub mod Frame
pub mod Growth
pub mod PutKeeps
pub mod Ops
pub mod Own
pub mod Adopt
pub mod Composed
pub mod CatchUp
pub mod Serving
pub mod Exchange
pub mod Refusals
pub mod Race
pub mod Ledger
pub mod Refines
