-- ===== src/Mail.antt =====
-- src/services/mail.rs: private mail. Each sender is a row of users, so that the joins with users
-- drop no mail.
pub mod Laws
mod Tests
use bbs_rs.Prelude.{
  ℕ, suc, Bool, true, false, not, ◌&&◌, ◌||◌, List, [], ◌∷◌, ◌++◌, Option, none, some, Text, codes,
  if◌then◌else◌, ◌==◌, ltb, leb, is_some, find, delete_where, update_where, count_where,
}
use bbs_rs.Error.{
  AppError, guest_not_allowed, not_found, recipient_not_found, blocked, Result, ok, err, ◌>>=◌,
  ◌>>◌,
}
use bbs_rs.Accounts.Tables.{User, is_guest, is_admin, named}
use bbs_rs.Limits.{Limits, window_start, enforce_rate, enforce_len}
use bbs_rs.Community.Blocks.{UserBlock, is_blocked}

pub record Mail : Type 0 where
  pub id : ℕ
  pub from_id : ℕ
  pub to_id : ℕ
  pub subject : Text
  pub body : Text
  pub created_at : ℕ
  pub read_at : Option ℕ

pub record Post : Type 0 where
  pub users : List User
  pub blocks : List UserBlock
  pub rows : List Mail
  pub next_id : ℕ

abbrev pub is_to : ℕ → ℕ → Mail → Bool
is_to id user_id m = m.id == id && m.to_id == user_id

abbrev pub opened : ℕ → ℕ → Post → Option Mail → Result Mail × Post
opened now id post none = (err not_found, post)
opened now id post (some m) = if is_some m.read_at then (ok m, post) else (
  ok (record m { read_at = some now }),
  record post {
    rows = update_where (λ k. k.id == id) (λ k. record k { read_at = some now }) post.rows;
  },
)

unfoldable pub read_mail : ℕ → ℕ → ℕ → Post → Result Mail × Post
read_mail now id user_id post = opened now id post (find (is_to id user_id) post.rows)

unfoldable pub delete_mail : ℕ → ℕ → Post → Bool × Post
delete_mail id user_id post = (
  ltb 0 (count_where (is_to id user_id) post.rows),
  record post { rows = delete_where (is_to id user_id) post.rows },
)

pub unread_count : ℕ → Post → ℕ
unread_count user_id post =
    count_where (λ m. m.to_id == user_id && not (is_some m.read_at)) post.rows

unfoldable pub recent_sent_count : ℕ → ℕ → Post → ℕ
recent_sent_count from_id since post =
    count_where (λ m. m.from_id == from_id && leb since m.created_at) post.rows

abbrev pub throttle : User → Limits → ℕ → Post → Result (Unit {0})
throttle from limits now post = if is_admin from then ok tt else elim (window_start limits now) [
  | none ↦ ok tt
  | some since ↦ enforce_rate (recent_sent_count from.id since post) limits.max_mail
]

abbrev pub not_guest : User → Result (Unit {0})
not_guest from = if is_guest from then err guest_not_allowed else ok tt

unfoldable pub check_sender : User → Text → Text → Limits → ℕ → Post → Result (Unit {0})
check_sender from subject body limits now post = do
  not_guest from
  enforce_len (codes "Subject") subject limits.max_subject_chars
  enforce_len (codes "Message") body limits.max_body_chars
  throttle from limits now post

abbrev pub new_mail : User → User → Text → Text → ℕ → Post → Mail
new_mail from to subject body now post = record {
  id = post.next_id;
  from_id = from.id;
  to_id = to.id;
  subject = subject;
  body = body;
  created_at = now;
  read_at = none;
}

abbrev pub insert_to : User → Text → Text → ℕ → Post → Result User → Result ℕ × Post
insert_to from subject body now post (err e) = (err e, post)
insert_to from subject body now post (ok to) = (
  ok post.next_id,
  record post {
    rows = post.rows ++ new_mail from to subject body now post ∷ [];
    next_id = suc post.next_id;
  },
)

abbrev pub local_only : Option User → Result User
local_only none = err recipient_not_found
local_only (some u) = if not u.is_remote then ok u else err recipient_not_found

abbrev pub heard : User → Post → User → Result User
heard from post to =
    if not (is_admin from) && is_blocked to.id from.id post.blocks then err blocked else ok to

-- The recipient, with what `send_mail` checks before it writes.
abbrev pub recipient : User → Text → Text → Text → Limits → ℕ → Post → Result User
recipient from to_username subject body limits now post =
    check_sender from subject body limits now post >>= λ _.
    local_only (find (named to_username) post.users) >>= heard from post

unfoldable pub send_mail : User → Text → Text → Text → Limits → ℕ → Post → Result ℕ × Post
send_mail from to_username subject body limits now post =
    insert_to from subject body now post (recipient from to_username subject body limits now post)

unfoldable pub send_remote : User → User → Text → Text → Limits → ℕ → Post → Result ℕ × Post
send_remote from to_remote subject body limits now post =
    insert_to from subject body now post
      (check_sender from subject body limits now post >>= λ _. ok to_remote)
