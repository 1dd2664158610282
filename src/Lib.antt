-- ===== src/Lib.antt =====
-- A model of parts of bbs-rs, a bulletin board served over SSH, with the properties that make them
-- correct.
--
-- Terminal bytes come in through src/input.rs, which gives key events; the screens feed those to a
-- text buffer (src/app/textarea.rs) or a form (src/app/state.rs) and call the services of
-- src/services on the tables of src/migrations. The files, and the code each is about:
--
--   Prelude        shared names, lists and texts as Rust's `Vec` and `str` use them, and the
--                  queries on one table: find, update_where, delete_where, count_where
--   Error          src/error.rs: AppError and Result
--   TextArea       src/app/textarea.rs: the buffer, its keys (`act` on a key), and in Wrap the
--                  word wrap and `display`. View and Flat hold the abstract view, a flat text
--                  with a cursor in it, that Refinement compares the keys with
--   Input          src/input.rs: `round` is one turn of the loop in `drain`, `escape`, `csi`,
--                  `control` and `character` are the arms of its match
--   Accounts       src/services/auth.rs, admin.rs and keys.rs, src/db/models.rs, and the policy of
--                  src/config.rs: Names, Tables, Passwords, Login and Admin hold the operations,
--                  Laws what they promise
--   Menu, Form     src/app/state.rs: the targets of the main menu, and the multi-field form
--   Limits         the limits of src/config.rs and the checks of src/services/mod.rs
--   Community      src/services/reactions.rs, blocks.rs, polls.rs and oneliners.rs
--   Boards         src/services/boards.rs: access, posting, rights of authors, locks, marks
--                  with the unread counts, and the reply threads
--   Mail           src/services/mail.rs: sending, reading and deleting private mail
--   Template       src/template.rs: `at_open` and `at_close` are a round of `tokenize`, `branch` the
--                  conditional of `exec`; Tree is what a template is meant to print
--   Ansi           src/app/ansi.rs: `consume` is a round of the loop in `to_text`, over the three
--                  things it does to its output (Screen); Cells is the screen without a buffer
--   Editor         src/cfg/editor.rs, schema.rs and doc.rs: State is the editor, Fields, Seeding,
--                  Art, Doors and Keys the handlers of its screens, Docs what they ask of the
--                  document, and Document the document itself, over crate toml_edit and the files
--                  (Toml)
--   Files          src/services/files.rs and attachments.rs, and the upload policy of
--                  src/config.rs: areas, uploads with their limits, and attached files
--   Profiles       src/services/profiles.rs: the columns of a user's profile, and their changes
--   Finger         src/services/finger.rs: what `respond` answers, from profiles and sessions
--   Presence       src/services/presence.rs: the registry of live sessions and the chat room
--
-- A table is a list of its rows in the order of their ids (the login log newest first), with the
-- next id beside it, and an operation is a function of the tables that returns what the code
-- returns and the tables after it; an error keeps what was written before it, and a transaction
-- that fails keeps nothing. The statements of one operation are taken to run without another's in
-- between. The clock is an argument, Unix seconds after 1970. A text is the list of its code
-- points. An index out of range and a subtraction below zero are panics, `none`, or written out.
--
-- argon2 is a parameter (Accounts.Passwords.Argon): hashing, parsing a hash, and verifying, with
-- the one law that a password verifies against its own hash. The random bytes are an argument.
-- The channel behind a session (tokio's) is one too (Presence.Channels), and the style of drawn
-- text (ratatui's, Ansi.Styles). A date is written by a parameter too (`fmt_time`),
-- and the tables of a document (toml_edit's, Editor.Toml.Toml) and its file.
--
-- `drain`, the wrap of a line, the loops over a template and over art, and the walk over a board's
-- replies run on fuel, the length of what is read: each turn takes at least one byte, character,
-- token or message, and the theorems about them show that nothing is left undone.
--
-- Not modelled: drawing, SSH, HTTP and federation, archives, door games, how a configuration is
-- read, validated and given its defaults, and errors of the database.
mod Prelude
pub mod Error
pub mod TextArea
pub mod Input
pub mod Accounts
pub mod Menu
pub mod Form
pub mod Limits
pub mod Community
pub mod Presence
pub mod Boards
pub mod Mail
pub mod Template
pub mod Ansi
pub mod Editor
pub mod Files
pub mod Profiles
pub mod Finger
