-- ===== src/Files/Tests.antt =====
-- src/services/files.rs: uploads to a small library, and an attachment seen by two users.
use bbs_rs.Prelude.{ℕ, ◌≡◌, refl, false, [], ◌∷◌, none, some, Text, codes, arith, any, ◌&&◌, pos}
use bbs_rs.Error.{ok, err, quota_exceeded}
use bbs_rs.Accounts.Tables.{User, is_admin, is_guest}
use bbs_rs.Limits.{Limits, role_rank}
use bbs_rs.Boards.{Message}
use bbs_rs.Files.{
  FileArea, FileEntry, Library, Policy, basename, extension_allowed, get_area, user_usage, add_file,
}
use bbs_rs.Files.Attachments.{attach_to_message, for_message, for_mail, may_attach, is_link}
use bbs_rs.Files.Laws.{Adds, add_file-Adds, IsWithinQuota, add_file-IsWithinQuota}
use bbs_rs.Files.Sharing.{shows, for_message-shows, Attaches, attach_to_message-Attaches}

abbrev person : ℕ → Text → User
person id role = record {
  id = id;
  username = codes "al";
  password_hash = [];
  role = role;
  created_at = 0;
  banned_at = none;
  validated_at = some 0;
  is_remote = false;
  password_reset_at = none;
}

abbrev al : User
al = person 7 (codes "user")

abbrev uploads : FileArea
uploads = record {
  id = 1;
  name = codes "Uploads";
  description = [];
  min_read_role = codes "user";
  min_write_role = codes "user";
  created_at = 0;
}

abbrev old : FileEntry
old = record {
  id = 3;
  area_id = 1;
  uploader_id = 7;
  filename = codes "a.txt";
  description = [];
  size = pos 60;
  storage_path = codes "3-a.txt";
  downloads = 0;
  created_at = 0;
}

abbrev library : Library
library = record {
  areas = uploads ∷ [];
  next_area = 2;
  files = old ∷ [];
  next_file = 4;
  on_messages = [];
  on_mail = [];
}

abbrev policy : Policy
policy = record {
  max_file_bytes = 50;
  user_quota_bytes = 100;
  allowed_extensions = codes ".TXT" ∷ [];
}

bare_names :
    (basename (codes "../etc/b.txt") ≡ codes "b.txt") × (basename (codes "x/..") ≡ codes "file")
unfolding basename
bare_names = (refl, refl)

over_quota :
    (add_file 1 al (codes "b.txt") [] (pos 41) policy 9 library).0 ≡ err (quota_exceeded 100)
unfolding add_file get_area basename extension_allowed user_usage is_admin
over_quota = refl

add_file-Adds_example :
    Adds 1 al
      (codes "up/b.txt")
      []
      (pos 40)
      policy
      0
      library
      (add_file 1 al (codes "up/b.txt") [] (pos 40) policy 0 library)
add_file-Adds_example =
    add_file-Adds 1 al (codes "up/b.txt") [] (pos 40) policy 0 library (omega arith, tt)

add_file-IsWithinQuota_example :
    IsWithinQuota policy 7 (add_file 1 al (codes "b.txt") [] (pos 40) policy 9 library).1
unfolding user_usage is_admin
add_file-IsWithinQuota_example =
    add_file-IsWithinQuota 1 al (codes "b.txt") [] (pos 40) policy 9 library 7 (omega arith, tt)
      refl (omega arith) (omega arith)

abbrev limits : Limits
limits = record {
  window_secs = 60;
  max_posts = 5;
  max_mail = 10;
  max_oneliners = 8;
  max_reactions = 30;
  daily_minutes = 0;
  max_attachments = 1;
  max_subject_chars = 120;
  max_body_chars = 8000;
}

abbrev hello : Message
hello = record {
  id = 5;
  board_id = 1;
  author_id = 7;
  subject = codes "hi";
  body = [];
  created_at = 5;
  pinned = false;
  parent_id = none;
  edited_at = none;
}

abbrev shared : Library
shared = record library { on_messages = record { owner = 5; file_id = 3; created_at = 8 } ∷ [] }

attached : attach_to_message 5 3 al limits 8 (hello ∷ []) library ≡ (ok tt, shared)
unfolding attach_to_message may_attach role_rank is_guest
attached = refl

hidden_from_guests : shows 3 (for_message 5 (codes "guest") shared) ≡ false
unfolding for_message role_rank
hidden_from_guests = refl

attach_to_message-Attaches_example :
    Attaches 5 3 al limits 8
      (hello ∷ [])
      library
      (attach_to_message 5 3 al limits 8 (hello ∷ []) library)
attach_to_message-Attaches_example = attach_to_message-Attaches 5 3 al limits 8 (hello ∷ []) library

for_message-shows_example :
    (shows 3 (for_message 5 al.role shared)
      ≡ (any (is_link 5 3) shared.on_messages && may_attach 3 al shared))
    × (shows 3 (for_mail 5 al.role shared)
        ≡ (any (is_link 5 3) shared.on_mail && may_attach 3 al shared))
for_message-shows_example = for_message-shows al shared 5 3
