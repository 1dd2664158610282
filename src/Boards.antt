-- ===== src/Boards.antt =====
-- src/services/boards.rs: boards with their access roles and locks, and the messages on them. Each
-- message's author is a row of users, so that the joins with users drop no message.
pub mod Laws
pub mod Threads
pub mod Unread
mod Tests
use bbs_rs.Prelude.{
  ℕ, suc, max, Bool, true, false, not, ◌&&◌, ◌||◌, List, [], ◌∷◌, ◌++◌, Option, none, some, Text,
  codes, text_eq, any, if◌then◌else◌, ◌==◌, ltb, leb, find, delete_where, update_where, count_where,
}
use bbs_rs.Error.{
  AppError, guest_not_allowed, not_found, board_locked, board_write_denied, bad_role, Result, ok,
  err, ◌>>=◌, ◌>>◌,
}
use bbs_rs.Accounts.Tables.{User, is_guest, is_admin}
use bbs_rs.Accounts.Admin.{roles, select}
use bbs_rs.Limits.{Limits, window_start, enforce_rate, enforce_len, role_rank}
use bbs_rs.Community.Reactions.{Row, clear_for_message}

pub record Board : Type 0 where
  pub id : ℕ
  pub name : Text
  pub description : Text
  pub min_read_role : Text
  pub min_write_role : Text
  pub locked : Bool

unfoldable pub can_read : Board → Text → Bool
can_read b role = leb (role_rank b.min_read_role) (role_rank role)

unfoldable pub can_write : Board → Text → Bool
can_write b role = leb (role_rank b.min_write_role) (role_rank role)

pub record Message : Type 0 where
  pub id : ℕ
  pub board_id : ℕ
  pub author_id : ℕ
  pub subject : Text
  pub body : Text
  pub created_at : ℕ
  pub pinned : Bool
  pub parent_id : Option ℕ
  pub edited_at : Option ℕ

pub record Seen : Type 0 where
  pub user_id : ℕ
  pub board_id : ℕ
  pub last_seen_at : ℕ

pub record Db : Type 0 where
  pub boards : List Board
  pub messages : List Message
  pub next_message : ℕ
  pub seen : List Seen
  pub reactions : List Row

unfoldable pub list_readable_boards : Text → Db → List Board
list_readable_boards role db = select (λ b. can_read b role) db.boards

abbrev pub or_not_found {ℓ} : {A : Type ℓ} → Option A → Result A
or_not_found none = err not_found
or_not_found (some a) = ok a

unfoldable pub get_board : ℕ → Db → Result Board
get_board id db = or_not_found (find (λ b. b.id == id) db.boards)

unfoldable pub get_message : ℕ → Db → Result Message
get_message id db = or_not_found (find (λ m. m.id == id) db.messages)

unfoldable pub last_seen : ℕ → ℕ → Db → ℕ
last_seen user_id board_id db =
    elim (find (λ s. s.user_id == user_id && s.board_id == board_id) db.seen) [
      | none ↦ 0
      | some s ↦ s.last_seen_at
    ]

abbrev pub upsert_seen : Seen → List Seen → List Seen
upsert_seen n [] = n ∷ []
upsert_seen n (s ∷ ss) =
    if s.user_id == n.user_id && s.board_id == n.board_id
    then record s { last_seen_at = max s.last_seen_at n.last_seen_at } ∷ ss
    else s ∷ upsert_seen n ss

unfoldable pub mark_board_seen : ℕ → ℕ → ℕ → Db → Db
mark_board_seen user_id board_id at db = record db {
  seen = upsert_seen (record { user_id = user_id; board_id = board_id; last_seen_at = at }) db.seen;
}

unfoldable pub recent_post_count : ℕ → ℕ → Db → ℕ
recent_post_count author_id since db =
    count_where (λ m. m.author_id == author_id && leb since m.created_at) db.messages

-- The guards of `post_message` on the board, in their order.
abbrev pub board_open : User → Board → Result (Unit {0})
board_open author board =
    if board.locked && not (is_admin author)
    then err board_locked
    else if not (can_write board author.role)
    then err board_write_denied
    else ok tt

-- A reply must target a message on the same board.
abbrev pub parent_here : ℕ → Db → Option ℕ → Result (Unit {0})
parent_here board_id db none = ok tt
parent_here board_id db (some pid) =
    get_message pid db >>= λ parent. if parent.board_id == board_id then ok tt else err not_found

abbrev pub throttle : User → Limits → ℕ → Db → Result (Unit {0})
throttle author limits now db = if is_admin author then ok tt else elim (window_start limits now) [
  | none ↦ ok tt
  | some since ↦ enforce_rate (recent_post_count author.id since db) limits.max_posts
]

abbrev pub checks : ℕ → User → Text → Text → Option ℕ → Limits → ℕ → Db → Result (Unit {0})
checks board_id author subject body parent_id limits now db = do
  enforce_len (codes "Subject") subject limits.max_subject_chars
  enforce_len (codes "Message") body limits.max_body_chars
  board ← get_board board_id db
  board_open author board
  parent_here board_id db parent_id
  throttle author limits now db

abbrev pub new_message : ℕ → User → Text → Text → Option ℕ → ℕ → Db → Message
new_message board_id author subject body parent_id now db = record {
  id = db.next_message;
  board_id = board_id;
  author_id = author.id;
  subject = subject;
  body = body;
  created_at = now;
  pinned = false;
  parent_id = parent_id;
  edited_at = none;
}

abbrev pub insert_message : Message → Db → Result (Unit {0}) → Result ℕ × Db
insert_message m db (err e) = (err e, db)
insert_message m db (ok _) = (
  ok db.next_message,
  record db { messages = db.messages ++ m ∷ []; next_message = suc db.next_message },
)

unfoldable pub post_message : ℕ → User → Text → Text → Option ℕ → Limits → ℕ → Db → Result ℕ × Db
post_message board_id author subject body parent_id limits now db =
    if is_guest author
    then (err guest_not_allowed, db)
    else insert_message (new_message board_id author subject body parent_id now db) db
        (checks board_id author subject body parent_id limits now db)

-- `board_id IN (SELECT id FROM boards WHERE locked = 1)`
abbrev pub on_locked : Db → Message → Bool
on_locked db m = any (λ b. b.locked && b.id == m.board_id) db.boards

abbrev pub is_own : ℕ → User → Db → Message → Bool
is_own id author db m = m.id == id && m.author_id == author.id && not (on_locked db m)

abbrev pub update_message : ℕ → User → Text → Text → ℕ → Db → Result (Unit {0}) → Result Bool × Db
update_message id author subject body now db (err e) = (err e, db)
update_message id author subject body now db (ok _) = (
  ok (ltb 0 (count_where (is_own id author db) db.messages)),
  record db {
    messages =
        update_where (is_own id author db)
          (λ m. record m { subject = subject; body = body; edited_at = some now }) db.messages;
  },
)

unfoldable pub edit_own_message : ℕ → User → Text → Text → Limits → ℕ → Db → Result Bool × Db
edit_own_message id author subject body limits now db =
    update_message id author subject body now db (
      enforce_len (codes "Subject") subject limits.max_subject_chars
      >> enforce_len (codes "Message") body limits.max_body_chars)

-- A `DELETE` with its count, and the message's reactions after it where a row was removed.
abbrev pub delete_rows : ℕ → (Message → Bool) → Db → Bool × Db
delete_rows id p db =
    let removed = ltb 0 (count_where p db.messages) in
    (
      removed,
      record db {
        messages = delete_where p db.messages;
        reactions = if removed then clear_for_message id db.reactions else db.reactions;
      },
    )

unfoldable pub delete_own_message : ℕ → User → Db → Bool × Db
delete_own_message id author db = delete_rows id (is_own id author db) db

unfoldable pub delete_message : ℕ → Db → Bool × Db
delete_message id db = delete_rows id (λ m. m.id == id) db

pub set_pinned : ℕ → Bool → Db → Db
set_pinned id pinned db = record db {
  messages = update_where (λ m. m.id == id) (λ m. record m { pinned = pinned }) db.messages;
}

unfoldable pub set_locked : ℕ → Bool → Db → Db
set_locked board_id locked db = record db {
  boards = update_where (λ b. b.id == board_id) (λ b. record b { locked = locked }) db.boards;
}

pub set_locked_by_name : Text → Bool → Db → Db
set_locked_by_name name locked db = record db {
  boards = update_where (λ b. text_eq b.name name) (λ b. record b { locked = locked }) db.boards;
}

abbrev is_role : Option Text → Result (Unit {0})
is_role none = ok tt
is_role (some r) = if any (λ k. text_eq k r) roles then ok tt else err (bad_role r)

abbrev set_read : Text → Option Text → List Board → List Board
set_read name none bs = bs
set_read name (some r) bs =
    update_where (λ b. text_eq b.name name) (λ b. record b { min_read_role = r }) bs

abbrev set_write : Text → Option Text → List Board → List Board
set_write name none bs = bs
set_write name (some r) bs =
    update_where (λ b. text_eq b.name name) (λ b. record b { min_write_role = r }) bs

abbrev if_ok : Db → Db → Result (Unit {0}) → Result (Unit {0}) × Db
if_ok before after (err e) = (err e, before)
if_ok before after (ok _) = (ok tt, after)

pub set_roles : Text → Option Text → Option Text → Db → Result (Unit {0}) × Db
set_roles name min_read min_write db =
    if_ok db (record db { boards = set_write name min_write (set_read name min_read db.boards) })
      (is_role min_read >> is_role min_write)
