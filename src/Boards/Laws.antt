-- ===== src/Boards/Laws.antt =====
-- What the boards of src/services/boards.rs promise.
pub mod Threads
pub mod Posting
pub mod Rights
pub mod Unread
