-- ===== src/Accounts/Laws.antt =====
-- What the account services of src/services promise: who gets in, and what the tables keep.
pub mod Decisions
pub mod Admission
pub mod Bans
pub mod Registration
pub mod Credentials
pub mod Broadcasts
