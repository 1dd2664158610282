-- ===== src/Boards/Tests.antt =====
-- Runs of a board with one message.
use bbs_rs.Prelude.{
  ℕ, ◌≢◌, ◌&&◌, ◌==◌, Bool, List, count_where, arith, ◌≡◌, refl, inl, true, false, [], ◌∷◌, none,
  some, In, codes,
}
use bbs_rs.Error.{AppError, err}
use bbs_rs.Accounts.Tables.{User, is_admin}
use bbs_rs.Limits.{Limits}
use bbs_rs.Boards.{
  Board, Message, Db, post_message, edit_own_message, delete_own_message, set_locked,
  mark_board_seen, last_seen,
}
use bbs_rs.Boards.Unread.{newer, unread_counts, count_of}
use bbs_rs.Boards.Laws.Unread.{unless_zero, mark_after, unread_counts-mark_board_seen}
use bbs_rs.Boards.Threads.{ThreadItem, item, list_messages, walk, list_thread}
use bbs_rs.Boards.Laws.Threads.{list_thread-Lists}
use bbs_rs.Boards.Laws.Threads.Counts.{count_items}
use bbs_rs.Boards.Laws.Posting.{Posts, post_message-Posts}
use bbs_rs.Boards.Laws.Rights.{KeepsOthers, edit_own_message-KeepsOthers, set_locked-post_message}

abbrev ann : User
ann = record {
  id = 2;
  username = codes "ann";
  password_hash = [];
  role = codes "user";
  created_at = 0;
  banned_at = none;
  validated_at = some 0;
  is_remote = false;
  password_reset_at = none;
}

abbrev limits : Limits
limits = record {
  window_secs = 60;
  max_posts = 5;
  max_mail = 10;
  max_oneliners = 8;
  max_reactions = 30;
  daily_minutes = 0;
  max_attachments = 4;
  max_subject_chars = 120;
  max_body_chars = 8000;
}

abbrev general : Board
general = record {
  id = 1;
  name = codes "General";
  description = [];
  min_read_role = codes "guest";
  min_write_role = codes "user";
  locked = false;
}

abbrev hello : Message
hello = record {
  id = 1;
  board_id = 1;
  author_id = 2;
  subject = codes "hi";
  body = [];
  created_at = 5;
  pinned = false;
  parent_id = none;
  edited_at = none;
}

abbrev board_db : Db
board_db = record {
  boards = general ∷ [];
  messages = hello ∷ [];
  next_message = 2;
  seen = [];
  reactions = [];
}

post_message-Posts_example :
    Posts 1 ann
      (codes "re")
      (codes "yes")
      (some 1)
      9
      board_db
      (post_message 1 ann (codes "re") (codes "yes") (some 1) limits 9 board_db)
post_message-Posts_example =
    post_message-Posts 1 ann (codes "re") (codes "yes") (some 1) limits 9 board_db

edit_own_message-KeepsOthers_example :
    KeepsOthers 1 ann board_db (edit_own_message 1 ann (codes "ho") [] limits 9 board_db).1
    × KeepsOthers 1 ann board_db (delete_own_message 1 ann board_db).1
edit_own_message-KeepsOthers_example =
    edit_own_message-KeepsOthers 1 ann (codes "ho") [] limits 9 board_db

set_locked-post_message_example :
    let db' = set_locked 1 true board_db in
    (is_admin ann ≡ false
      → (e : AppError) × (post_message 1 ann (codes "re") (codes "yes") (some 1) limits 9 db'
          ≡ (err e, db')))
    × ((m : Message)
        → In m db'.messages
        → m.board_id ≡ 1
        → In m (edit_own_message 1 ann (codes "re") (codes "yes") limits 9 db').1.messages
          × In m (delete_own_message 1 ann db').1.messages)
set_locked-post_message_example =
    set_locked-post_message 1 general 1 ann (codes "re") (codes "yes") (some 1) limits 9 board_db
      (inl refl) refl

-- A pinned post and a reply to the older one
abbrev pinned_post : Message
pinned_post = record hello { id = 2; pinned = true }

abbrev reply : Message
reply = record hello { id = 3; parent_id = some 1 }

abbrev threaded : Db
threaded = record {
  boards = general ∷ [];
  messages = hello ∷ pinned_post ∷ reply ∷ [];
  next_message = 4;
  seen = [];
  reactions = [];
}

pinned_first : list_thread 1 threaded ≡ some (item 0 pinned_post ∷ item 0 hello ∷ item 1 reply ∷ [])
unfolding list_thread list_messages walk
pinned_first = refl

list_thread-Lists_example :
    (items : List ThreadItem) × (list_thread 1 threaded ≡ some items)
    × ((p : Message → Bool)
        → count_items p items ≡ count_where p (hello ∷ pinned_post ∷ reply ∷ []))
unfolding list_messages
list_thread-Lists_example =
    list_thread-Lists 1 threaded (λ p e. cc e, (λ p e. ground (arith, e), (λ p e. cc e, tt)))

-- Another's three messages are counted until the mark reaches them.
unread_after_mark :
    (unread_counts 9 (mark_board_seen 9 1 4 threaded) ≡ (1, 3) ∷ [])
    × (unread_counts 9 (mark_board_seen 9 1 5 threaded) ≡ [])
    × (unread_counts 2 threaded ≡ [])
unfolding unread_counts mark_board_seen last_seen
unread_after_mark = (refl, refl, refl)

unread_counts-mark_board_seen_example :
    let db' = mark_board_seen 9 1 5 threaded in
    ((b : ℕ)
      → count_of b (unread_counts 9 db')
        ≡ unless_zero (
            count_where
              (λ m. m.board_id == b && newer 9 (mark_after 9 1 5 threaded b) m)
              threaded.messages))
    × ((u b : ℕ) → u ≢ 9 → count_of b (unread_counts u db') ≡ count_of b (unread_counts u threaded))
unread_counts-mark_board_seen_example = unread_counts-mark_board_seen 9 1 5 threaded
