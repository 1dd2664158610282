-- ===== src/Community.antt =====
-- What users share on the board: polls, reactions to posts, and the list of blocked users.
pub mod Reactions
pub mod Blocks
pub mod Polls
pub mod Oneliners
mod Tests
