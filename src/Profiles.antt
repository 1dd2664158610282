-- ===== src/Profiles.antt =====
-- src/services/profiles.rs: the profile columns of `users`, the profile that is made of them, and
-- their changes.
use bbs_rs.Prelude.{
  ℕ, Bool, ◌&&◌, List, [], ◌∷◌, Option, none, some, length, max, Text, codes, text_eq, trim,
  if◌then◌else◌, ◌==◌, ltb, find, update_where, count_where,
}
use bbs_rs.Error.{Result, ok, err, not_found, field_too_long, ◌>>◌}
use bbs_rs.Accounts.Tables.{Login}
use bbs_rs.Boards.{Message}

-- A row of `users`: the columns that this service reads, and `is_remote`
pub record ProfileRow : Type 0 where
  pub user_id : ℕ
  pub username : Text
  pub role : Text
  pub created_at : ℕ
  pub real_name : Text
  pub location : Text
  pub tagline : Text
  pub signature : Text
  pub finger_optout : Bool
  pub is_remote : Bool

pub record Profile : Type 0 where
  pub user_id : ℕ
  pub username : Text
  pub role : Text
  pub created_at : ℕ
  pub real_name : Text
  pub location : Text
  pub tagline : Text
  pub signature : Text
  pub last_login : Option ℕ
  pub post_count : ℕ
  pub finger_optout : Bool

pub record Db : Type 0 where
  pub users : List ProfileRow
  pub logins : List Login
  pub messages : List Message

-- `SELECT MAX(created_at)`, which is NULL where no row is
abbrev max_or : ℕ → Option ℕ → ℕ
max_or t none = t
max_or t (some u) = max t u

abbrev last_success : Text → List Login → Option ℕ
last_success username [] = none
last_success username (l ∷ ls) =
    let rest = last_success username ls in
    if text_eq l.username username && l.success then some (max_or l.created_at rest) else rest

abbrev pub hydrate : Db → ProfileRow → Profile
hydrate db row = record {
  user_id = row.user_id;
  username = row.username;
  role = row.role;
  created_at = row.created_at;
  real_name = row.real_name;
  location = row.location;
  tagline = row.tagline;
  signature = row.signature;
  last_login = last_success row.username db.logins;
  post_count = count_where (λ m. m.author_id == row.user_id) db.messages;
  finger_optout = row.finger_optout;
}

abbrev pub hydrated : Db → Option ProfileRow → Result Profile
hydrated db none = err not_found
hydrated db (some row) = ok (hydrate db row)

abbrev pub get_profile : ℕ → Db → Result Profile
get_profile user_id db = hydrated db (find (λ r. r.user_id == user_id) db.users)

abbrev pub get_profile_by_name : Text → Db → Result Profile
get_profile_by_name username db = hydrated db (find (λ r. text_eq r.username username) db.users)

abbrev pub set_finger_optout : ℕ → Bool → Db → Db
set_finger_optout user_id optout db = record db {
  users =
      update_where (λ r. r.user_id == user_id) (λ r. record r { finger_optout = optout })
        (db.users);
}

-- One turn of the loop over the fields of `update_profile`
abbrev checked : Text → Text → ℕ → Result (Unit {0})
checked label value most =
    if ltb most (length value) then err (field_too_long label most) else ok tt

abbrev pub update_profile : ℕ → Text → Text → Text → Text → Db → Result Db
update_profile user_id real_name location tagline signature db =
    checked (codes "Real name") (trim real_name) 48
    >> (checked (codes "Location") (trim location) 48
        >> (checked (codes "Tagline") (trim tagline) 80
            >> (checked (codes "Signature") (trim signature) 200
                >> ok (record db {
                  users =
                      update_where (λ r. r.user_id == user_id)
                        (λ r. record r {
                          real_name = trim real_name;
                          location = trim location;
                          tagline = trim tagline;
                          signature = trim signature;
                        })
                        db.users;
                }))))

abbrev signature_in : Option ProfileRow → Text
signature_in none = []
signature_in (some r) = r.signature

abbrev pub signature_of : ℕ → Db → Text
signature_of user_id db = signature_in (find (λ r. r.user_id == user_id) db.users)
