-- ===== src/Community/Polls/Laws.antt =====
-- What polls of src/services/polls.rs promise.
pub mod Voting
pub mod Creation
pub mod Tallies
