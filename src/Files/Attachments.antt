-- ===== src/Files/Attachments.antt =====
-- src/services/attachments.rs: files attached to board messages and to mail. A row of one of the
-- two tables is a link from its owner, the message or the mail, to a file.
use bbs_rs.Prelude.{
  ℕ, Bool, false, not, ◌&&◌, ◌||◌, List, [], ◌∷◌, ◌++◌, Option, none, some, Text, any,
  if◌then◌else◌, ◌==◌, ltb, leb, find, count_where,
}
use bbs_rs.Error.{guest_not_allowed, not_found, too_many_attachments, Result, ok, err}
use bbs_rs.Accounts.Tables.{User, is_guest}
use bbs_rs.Accounts.Admin.{select}
use bbs_rs.Limits.{Limits, role_rank}
use bbs_rs.Boards.{Message}
use bbs_rs.Mail.{Mail}
use bbs_rs.Files.{FileArea, FileEntry, Link, Library}

-- A file with the area that it is in
pub record Attachment : Type 0 where
  pub file : FileEntry
  pub area : FileArea

abbrev pub path : Attachment → Text
path a = a.area.name ++ (b'/' ∷ a.file.filename)

-- `JOIN file_areas`: a file whose area is gone is dropped.
abbrev pub in_area : FileEntry → Option FileArea → List Attachment
in_area f none = []
in_area f (some a) = record { file = f; area = a } ∷ []

abbrev pub area_of : Library → FileEntry → Option FileArea
area_of lib f = find (λ a. a.id == f.area_id) lib.areas

abbrev pub join_area : Library → Option FileEntry → List Attachment
join_area lib none = []
join_area lib (some f) = in_area f (area_of lib f)

abbrev pub file_of : Library → ℕ → Option FileEntry
file_of lib id = find (λ f. f.id == id) lib.files

abbrev pub joined : Library → List Link → List Attachment
joined lib [] = []
joined lib (l ∷ ls) = join_area lib (file_of lib l.file_id) ++ joined lib ls

abbrev pub is_readable : Text → Attachment → Bool
is_readable role a = leb (role_rank a.area.min_read_role) (role_rank role)

abbrev pub readable : Text → List Attachment → List Attachment
readable role rows = select (is_readable role) rows

-- `ORDER BY created_at, f.id`, on the links
abbrev pub precedes : Link → Link → Bool
precedes l k =
    ltb l.created_at k.created_at || (l.created_at == k.created_at && leb l.file_id k.file_id)

abbrev pub insert_link : Link → List Link → List Link
insert_link l [] = l ∷ []
insert_link l (k ∷ ks) =
    let rest = insert_link l ks in if precedes l k then l ∷ k ∷ ks else k ∷ rest

abbrev pub order_links : List Link → List Link
order_links [] = []
order_links (l ∷ ls) = insert_link l (order_links ls)

unfoldable pub for_message : ℕ → Text → Library → List Attachment
for_message message_id role lib =
    readable role (joined lib (order_links (select (λ l. l.owner == message_id) lib.on_messages)))

unfoldable pub for_mail : ℕ → Text → Library → List Attachment
for_mail mail_id role lib =
    readable role (joined lib (order_links (select (λ l. l.owner == mail_id) lib.on_mail)))

-- The files that a user with a role may attach, the newest first
abbrev all_joined : Library → List FileEntry → List Attachment
all_joined lib [] = []
all_joined lib (f ∷ fs) = all_joined lib fs ++ join_area lib (some f)

unfoldable pub pickable : Text → Library → List Attachment
pickable role lib = readable role (all_joined lib lib.files)

abbrev pub reads_area : Text → Option FileArea → Bool
reads_area role none = false
reads_area role (some a) = leb (role_rank a.min_read_role) (role_rank role)

abbrev pub reads_file : Text → Library → Option FileEntry → Bool
reads_file role lib none = false
reads_file role lib (some f) = reads_area role (area_of lib f)

unfoldable pub may_attach : ℕ → User → Library → Bool
may_attach file_id actor lib = reads_file actor.role lib (file_of lib file_id)

abbrev pub is_link : ℕ → ℕ → Link → Bool
is_link owner file_id l = l.owner == owner && l.file_id == file_id

abbrev pub count_of : ℕ → List Link → ℕ
count_of owner links = count_where (λ l. l.owner == owner) links

-- The guards, the same for a message and a mail
abbrev pub may_link : ℕ → ℕ → User → Limits → Library → List Link → Result (Unit {0})
may_link owner file_id actor limits lib links =
    if is_guest actor
    then err guest_not_allowed
    else if not (may_attach file_id actor lib)
    then err not_found
    else if ltb 0 limits.max_attachments && leb limits.max_attachments (count_of owner links)
    then err (too_many_attachments limits.max_attachments)
    else ok tt

-- `INSERT OR IGNORE … WHERE EXISTS`: the owner must be the actor's own, and a link that is there
-- is not made again.
abbrev pub link : Bool → ℕ → ℕ → ℕ → List Link → Result (Unit {0}) → Result (Unit {0}) × List Link
link own owner file_id now links (err e) = (err e, links)
link own owner file_id now links (ok _) =
    if not own
    then (err not_found, links)
    else if any (is_link owner file_id) links
    then (ok tt, links)
    else (ok tt, links ++ record { owner = owner; file_id = file_id; created_at = now } ∷ [])

unfoldable pub attach_to_message :
    ℕ → ℕ → User → Limits → ℕ → List Message → Library → Result (Unit {0}) × Library
attach_to_message message_id file_id actor limits now messages lib =
    let own = any (λ m. m.id == message_id && m.author_id == actor.id) messages in
    let done =
      link own message_id file_id now lib.on_messages
        (may_link message_id file_id actor limits lib lib.on_messages) in
    (done.0, record lib { on_messages = done.1 })

unfoldable pub attach_to_mail :
    ℕ → ℕ → User → Limits → ℕ → List Mail → Library → Result (Unit {0}) × Library
attach_to_mail mail_id file_id actor limits now mail lib =
    let own = any (λ m. m.id == mail_id && m.from_id == actor.id) mail in
    let done =
      link own mail_id file_id now lib.on_mail
        (may_link mail_id file_id actor limits lib lib.on_mail) in
    (done.0, record lib { on_mail = done.1 })
