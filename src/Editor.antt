-- ===== src/Editor.antt =====
-- src/cfg/editor.rs: the configuration editor of the tool `bbscfg`.
pub mod Schema
pub mod Sections
pub mod Docs
pub mod Toml
pub mod Document
pub mod State
pub mod Fields
pub mod Seeding
pub mod Art
pub mod Doors
pub mod Keys
pub mod Laws
mod Tests
