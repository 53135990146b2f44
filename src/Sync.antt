-- ===== src/Sync.antt =====
-- The pages by which a client copies the notes that it may see.
pub mod Pages
pub mod Loop
pub mod Bounds
pub mod Progress
mod Examples
