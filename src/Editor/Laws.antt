-- ===== src/Editor/Laws.antt =====
-- src/cfg/editor.rs: what a key keeps.
pub mod Invariant
pub mod Rows
pub mod Lists
pub mod Doors
pub mod Saving
pub mod Config
pub mod Leaving
