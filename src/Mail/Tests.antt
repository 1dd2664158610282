-- ===== src/Mail/Tests.antt =====
-- Runs of a mailbox with two users.
use bbs_rs.Prelude.{
  ℕ, ◌≡◌, ◌≢◌, refl, inl, inr, false, [], ◌∷◌, none, some, In, Text, codes, arith, ◌∙◌, sym,
}
use bbs_rs.Accounts.Tables.{User}
use bbs_rs.Limits.{Limits}
use bbs_rs.Mail.{Mail, Post, send_mail, read_mail, delete_mail}
use bbs_rs.Mail.Laws.{Sends, send_mail-Sends, read_mail-delete_mail}

abbrev user : ℕ → Text → User
user id username = record {
  id = id;
  username = username;
  password_hash = [];
  role = codes "user";
  created_at = 0;
  banned_at = none;
  validated_at = some 0;
  is_remote = false;
  password_reset_at = none;
}

abbrev limits : Limits
limits = record {
  window_secs = 60;
  max_posts = 5;
  max_mail = 10;
  max_oneliners = 8;
  max_reactions = 30;
  daily_minutes = 0;
  max_attachments = 4;
  max_subject_chars = 120;
  max_body_chars = 8000;
}

abbrev letter : Mail
letter = record {
  id = 1;
  from_id = 2;
  to_id = 3;
  subject = codes "hi";
  body = [];
  created_at = 5;
  read_at = none;
}

abbrev office : Post
office = record {
  users = user 2 (codes "ann") ∷ user 3 (codes "bob") ∷ [];
  blocks = [];
  rows = letter ∷ [];
  next_id = 2;
}

send_mail-Sends_example :
    Sends
      (user 2 (codes "ann"))
      (codes "bob")
      (codes "re")
      []
      9
      office
      (send_mail (user 2 (codes "ann")) (codes "bob") (codes "re") [] limits 9 office)
send_mail-Sends_example =
    send_mail-Sends (user 2 (codes "ann")) (codes "bob") (codes "re") [] limits 9 office

one_letter : (a b : Mail) → In a office.rows → In b office.rows → a.id ≡ b.id → a ≡ b
one_letter a b (inl p) (inl q) same = p ∙ sym q
one_letter a b (inl p) (inr j) same = absurd j
one_letter a b (inr i) j same = absurd i

not_ann : letter.to_id ≢ 2
not_ann e = omega (arith, e)

read_mail-delete_mail_example :
    In letter (read_mail 9 1 2 office).1.rows × In letter (delete_mail 1 2 office).1.rows
read_mail-delete_mail_example =
    read_mail-delete_mail 9 1 2 office one_letter letter (inl refl) not_ann
