-- ===== src/Accounts/Tables.antt =====
-- Rows of src/db/models.rs, the tables of src/migrations that the account services use, and a
-- monad of queries: an error keeps what was written before it.
use bbs_rs.Prelude.{ℕ, Bool, not, ◌&&◌, ◌||◌, List, Option, Text, codes, text_eq}
pub use bbs_rs.Prelude.{find, update_where, delete_where, count_where, is_some}
use bbs_rs.Error.{AppError, Result, ok, err}

pub record User : Type 0 where
  pub id : ℕ
  pub username : Text
  pub password_hash : Text
  pub role : Text
  pub created_at : ℕ
  pub banned_at : Option ℕ
  pub validated_at : Option ℕ
  pub is_remote : Bool
  pub password_reset_at : Option ℕ

-- The methods of `User`.
unfoldable pub is_guest : User → Bool
is_guest u = text_eq u.role (codes "guest")

unfoldable pub is_admin : User → Bool
is_admin u = text_eq u.role (codes "admin")

unfoldable pub is_banned : User → Bool
is_banned u = is_some u.banned_at

unfoldable pub is_validated : User → Bool
unfolding is_admin is_guest
is_validated u = is_some u.validated_at || is_admin u || is_guest u

unfoldable pub must_change_password : User → Bool
must_change_password u = is_some u.password_reset_at

unfoldable pub can_log_in : User → Bool
unfolding is_banned
can_log_in u = not u.is_remote && not (is_banned u)

pub record UserKey : Type 0 where
  pub id : ℕ
  pub user_id : ℕ
  pub algorithm : Text
  pub fingerprint : Text
  pub public_key : Text
  pub label : Text
  pub created_at : ℕ

pub record IpBan : Type 0 where
  pub ip : Text
  pub reason : Text
  pub created_at : ℕ
  pub expires_at : Option ℕ

pub record Login : Type 0 where
  pub id : ℕ
  pub username : Text
  pub ip : Option Text
  pub success : Bool
  pub created_at : ℕ

-- Rows in the order of their ids, but for `logins`, whose newest is first.
pub record Db : Type 0 where
  pub users : List User
  pub next_user : ℕ
  pub keys : List UserKey
  pub next_key : ℕ
  pub ip_bans : List IpBan
  pub logins : List Login
  pub next_login : ℕ

abbrev pub M : Type 0 → Type 0
M A = Db → Result A × Db

abbrev pub bind_result : {A B : Type 0} → Result A × Db → (A → M B) → Result B × Db
bind_result (ok a, db) f = f a db
bind_result (err e, db) f = (err e, db)

infixl 5 ◌>>=◌ ◌>>◌
abbrev pub ◌>>=◌ : {A B : Type 0} → M A → (A → M B) → M B
◌>>=◌ m f db = bind_result (m db) f

abbrev pub ◌>>◌ : {B : Type 0} → M (Unit {0}) → M B → M B
m >> k = m >>= λ _. k

abbrev pub pure : {A : Type 0} → A → M A
pure a db = (ok a, db)

abbrev pub throw : {A : Type 0} → AppError → M A
throw e db = (err e, db)

abbrev pub lift : {A : Type 0} → Result A → M A
lift r db = (r, db)

abbrev pub named : Text → User → Bool
named username u = text_eq u.username username

-- `find_user` of auth.rs
unfoldable pub find_user : Text → M (Option User)
find_user username db = (ok (find (named username) db.users), db)
