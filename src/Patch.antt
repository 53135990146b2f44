-- ===== src/Patch.antt =====
-- crates/marginalis-application/src/notes/patch.rs: the strict application of a unified diff.
pub mod Hunk
pub mod Parse
pub mod Apply
mod Examples
mod Fuel
mod Counts
mod Body
mod Splice
mod Total
mod Endings
mod Application
