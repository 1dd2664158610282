-- ===== src/Files.antt =====
-- src/services/files.rs and the file policy of src/config.rs: file areas, the files in them, and
-- the limits on uploads. A file's uploader is a row of users, so that the join drops no file. A
-- name of an area that is taken is an error of the database, and is left out.
pub mod Attachments
pub mod Laws
pub mod Sharing
mod Tests
use bbs_rs.Prelude.{
  ℕ, suc, ◌+◌, Bool, true, false, not, ◌&&◌, ◌||◌, List, [], ◌∷◌, ◌++◌, Option, none, some, Text,
  codes, text_eq, lower, eq_ignore_case, any, if◌then◌else◌, ◌==◌, ltb, leb, find, delete_where,
  update_where, count_where, split_on, ℤ, pos, negsuc, ◌+ℤ◌, amount, decimal,
}
use bbs_rs.Error.{
  AppError, not_found, bad_role, other, extension_not_allowed, file_too_large, quota_exceeded,
  Result, ok, err, ◌>>=◌, ◌>>◌,
}
use bbs_rs.Accounts.Tables.{User, is_admin}
use bbs_rs.Accounts.Admin.{roles, select}
use bbs_rs.Limits.{role_rank}
use bbs_rs.Boards.{or_not_found}

pub record FileArea : Type 0 where
  pub id : ℕ
  pub name : Text
  pub description : Text
  pub min_read_role : Text
  pub min_write_role : Text
  pub created_at : ℕ

-- A size is a 64-bit number with a sign.
pub record FileEntry : Type 0 where
  pub id : ℕ
  pub area_id : ℕ
  pub uploader_id : ℕ
  pub filename : Text
  pub description : Text
  pub size : ℤ
  pub storage_path : Text
  pub downloads : ℕ
  pub created_at : ℕ

-- A row of `message_attachments` or `mail_attachments`
pub record Link : Type 0 where
  pub owner : ℕ
  pub file_id : ℕ
  pub created_at : ℕ

pub record Library : Type 0 where
  pub areas : List FileArea
  pub next_area : ℕ
  pub files : List FileEntry
  pub next_file : ℕ
  pub on_messages : List Link
  pub on_mail : List Link

-- `Files` of the configuration: 0 bytes are no limit.
pub record Policy : Type 0 where
  pub max_file_bytes : ℕ
  pub user_quota_bytes : ℕ
  pub allowed_extensions : List Text

unfoldable pub can_read_area : FileArea → Text → Bool
can_read_area a role = leb (role_rank a.min_read_role) (role_rank role)

unfoldable pub can_write_area : FileArea → Text → Bool
can_write_area a role = leb (role_rank a.min_write_role) (role_rank role)

unfoldable pub list_readable_areas : Text → Library → List FileArea
list_readable_areas role lib = select (λ a. can_read_area a role) lib.areas

unfoldable pub get_area : ℕ → Library → Result FileArea
get_area id lib = or_not_found (find (λ a. a.id == id) lib.areas)

unfoldable pub get_area_by_name : Text → Library → Result FileArea
get_area_by_name name lib = or_not_found (find (λ a. text_eq a.name name) lib.areas)

-- A role that is given must be known.
abbrev known_role : Option Text → Result (Unit {0})
known_role none = ok tt
known_role (some r) = if any (λ k. text_eq k r) roles then ok tt else err (bad_role r)

abbrev role_or : Text → Option Text → Text
role_or r none = r
role_or r (some s) = s

abbrev insert_area : FileArea → Library → Result (Unit {0}) → Result ℕ × Library
insert_area a lib (err e) = (err e, lib)
insert_area a lib (ok _) =
    (ok lib.next_area, record lib { areas = lib.areas ++ a ∷ []; next_area = suc lib.next_area })

unfoldable pub add_area : Text → Text → Option Text → Option Text → ℕ → Library → Result ℕ × Library
add_area name description min_read min_write now lib =
    insert_area
      (record {
        id = lib.next_area;
        name = name;
        description = description;
        min_read_role = role_or (codes "guest") min_read;
        min_write_role = role_or (codes "user") min_write;
        created_at = now;
      })
      lib (known_role min_read >> known_role min_write)

unfoldable pub count_files : ℕ → Library → ℕ
count_files area_id lib = count_where (λ f. f.area_id == area_id) lib.files

-- An area with files is not deleted.
abbrev delete_found : Text → Library → Result FileArea → Result Bool × Library
delete_found name lib (err e) = (ok false, lib)
delete_found name lib (ok a) =
    let n = count_files a.id lib in
    if ltb 0 n
    then (
      err (
          other (
            codes "area '"
            ++ (name
                ++ (codes "' still has " ++ (decimal n ++ codes " file(s); remove them first"))))),
      lib,
    )
    else (
      ok (ltb 0 (count_where (λ b. b.id == a.id) lib.areas)),
      record lib { areas = delete_where (λ b. b.id == a.id) lib.areas },
    )

unfoldable pub delete_area : Text → Library → Result Bool × Library
delete_area name lib = delete_found name lib (get_area_by_name name lib)

unfoldable pub get_file : ℕ → Library → Result FileEntry
get_file id lib = or_not_found (find (λ f. f.id == id) lib.files)

abbrev total : List FileEntry → ℤ
total [] = pos 0
total (f ∷ fs) = f.size +ℤ total fs

unfoldable pub user_usage : ℕ → Library → ℤ
user_usage user_id lib = total (select (λ f. f.uploader_id == user_id) lib.files)

-- `Path::file_name`: the last component, unless it is `..`
abbrev is_component : Text → Bool
is_component s = not (text_eq s []) && not (text_eq s (codes "."))

abbrev last_of : List Text → Option Text
last_of [] = none
last_of (s ∷ []) = some s
last_of (s ∷ t ∷ ss) = last_of (t ∷ ss)

abbrev unless_parent : Option Text → Option Text
unless_parent none = none
unless_parent (some s) = if text_eq s (codes "..") then none else some s

abbrev pub path_file_name : Text → Option Text
path_file_name path = unless_parent (last_of (select is_component (split_on b'/' path)))

abbrev or_file : Option Text → Text
or_file none = codes "file"
or_file (some s) = s

unfoldable pub basename : Text → Text
basename path = or_file (path_file_name path)

-- `Path::extension`: what stands behind the last dot, if anything stands before it
abbrev after_dot : List Text → Text
after_dot [] = []
after_dot (_ ∷ []) = []
after_dot ([] ∷ s ∷ []) = []
after_dot (_ ∷ s ∷ ss) = or_empty (last_of (s ∷ ss))
  where
    or_empty : Option Text → Text
    or_empty none = []
    or_empty (some s) = s

abbrev extension : Text → Text
extension path = elim (path_file_name path) [
  | none ↦ []
  | some name ↦ after_dot (split_on b'.' name)
]

abbrev trim_dots : Text → Text
trim_dots [] = []
trim_dots (c ∷ s) = if c == b'.' then trim_dots s else c ∷ s

unfoldable pub extension_allowed : Policy → Text → Bool
extension_allowed policy filename =
    let ext = extension filename in
    elim policy.allowed_extensions [
      | [] ↦ true
      | a ∷ more ↦ any (λ allowed. eq_ignore_case (trim_dots allowed) (lower ext)) (a ∷ more)
    ]

-- The checks of `add_file`, in their order.
abbrev pub allowed : Policy → Text → Result (Unit {0})
allowed policy name = if extension_allowed policy name then ok tt else err extension_not_allowed

abbrev pub fits : Policy → ℤ → Result (Unit {0})
fits policy size =
    if ltb 0 policy.max_file_bytes && ltb policy.max_file_bytes (amount size)
    then err (file_too_large policy.max_file_bytes)
    else ok tt

abbrev pub within_quota : Policy → User → ℤ → Library → Result (Unit {0})
within_quota policy uploader size lib =
    if ltb 0 policy.user_quota_bytes
      && not (is_admin uploader)
      && ltb policy.user_quota_bytes (amount (user_usage uploader.id lib) + amount size)
    then err (quota_exceeded policy.user_quota_bytes)
    else ok tt

abbrev pub checks : ℕ → User → Text → ℤ → Policy → Library → Result (Unit {0})
checks area_id uploader name size policy lib = get_area area_id lib >>= λ _.
    allowed policy name >> (fits policy size >> within_quota policy uploader size lib)

abbrev pub new_file : ℕ → User → Text → Text → ℤ → ℕ → Library → FileEntry
new_file area_id uploader name description size now lib = record {
  id = lib.next_file;
  area_id = area_id;
  uploader_id = uploader.id;
  filename = name;
  description = description;
  size = size;
  storage_path = [];
  downloads = 0;
  created_at = now;
}

-- The row is inserted with no path and then given one that holds its id.
abbrev pub insert_file : FileEntry → Library → Result (Unit {0}) → Result FileEntry × Library
insert_file f lib (err e) = (err e, lib)
insert_file f lib (ok _) =
    let path = decimal f.id ++ (codes "-" ++ f.filename) in
    let inserted = lib.files ++ f ∷ [] in
    let lib' = record lib {
      files = update_where (λ g. g.id == f.id) (λ g. record g { storage_path = path }) inserted;
      next_file = suc lib.next_file;
    } in
    (get_file f.id lib', lib')

unfoldable pub add_file :
    ℕ → User → Text → Text → ℤ → Policy → ℕ → Library → Result FileEntry × Library
add_file area_id uploader filename description size policy now lib =
    let name = basename filename in
    insert_file (new_file area_id uploader name description size now lib) lib
      (checks area_id uploader name size policy lib)

-- The attachments of a deleted file go with it.
abbrev delete_row : ℕ → Library → Option FileEntry → Option Text × Library
delete_row id lib none = (none, lib)
delete_row id lib (some f) = (
  some f.storage_path,
  record lib {
    files = delete_where (λ g. g.id == id) lib.files;
    on_messages = delete_where (λ l. l.file_id == id) lib.on_messages;
    on_mail = delete_where (λ l. l.file_id == id) lib.on_mail;
  },
)

unfoldable pub delete_file : ℕ → Library → Option Text × Library
delete_file id lib = delete_row id lib (find (λ f. f.id == id) lib.files)

unfoldable pub set_description : ℕ → Text → Library → Bool × Library
set_description id description lib = (
  ltb 0 (count_where (λ f. f.id == id) lib.files),
  record lib {
    files = update_where (λ f. f.id == id) (λ f. record f { description = description }) lib.files;
  },
)

unfoldable pub record_download : ℕ → Library → Library
record_download id lib = record lib {
  files = update_where (λ f. f.id == id) (λ f. record f { downloads = suc f.downloads }) lib.files;
}

unfoldable pub ensure_default_areas : ℕ → Library → Library
ensure_default_areas now lib = elim lib.areas [
  | [] ↦
      (add_area (codes "Uploads") (codes "General user uploads") (some (codes "guest"))
        (some (codes "user")) now lib).1
  | _ ∷ _ ↦ lib
]
