-- ===== src/Notes.antt =====
-- crates/marginalis-sqlite/src: the notes, who may reach them, and the history of their revisions.
pub mod Store
pub mod Rows
pub mod History
pub mod Mutations
pub mod Updates
pub mod Removal
pub mod Advance
pub mod Changes
pub mod Calls
pub mod Recorded
pub mod Complete
pub mod Lost
pub mod Refused
pub mod Strangers
pub mod Sharing
pub mod Shown
pub mod Outcomes
pub mod Undo
pub mod Reading
pub mod Commands
pub mod Saving
pub mod PatchCommand
pub mod PatchRead
pub mod Unique
pub mod PatchSaved
pub mod Examples
mod Trials
mod HistoryTrials
mod PatchTrials
