-- ===== src/Accounts.antt =====
-- The tables behind src/services/auth.rs, admin.rs and keys.rs, their rows (src/db/models.rs), and
-- the queries on them. A row's columns keep the source's names. Times are Unix seconds.
pub mod Names
pub mod Tables
pub mod Passwords
pub mod Login
pub mod Admin
pub mod Broadcasts
pub mod Laws
mod Tests
