-- ===== src/Accounts/Passwords.antt =====
-- src/services/auth.rs: hashing, registration and the ways to change a password. argon2 and the
-- random source are parameters.
use bbs_rs.Prelude.{
  ℕ, suc, ◌≡◌, Bool, true, false, not, ◌&&◌, [], ◌∷◌, ◌++◌, Option, none, some, length, Text, codes,
  if◌then◌else◌, ◌==◌, ltb,
}
use bbs_rs.Error.{
  hash, username_taken, username_reserved, password_too_short, password_incorrect, not_found,
  Result, ok, err,
}
use bbs_rs.Accounts.Names.{Policy, is_reserved, validate_username}
use bbs_rs.Accounts.Tables.{
  User, Db, M, bind_result, ◌>>=◌, ◌>>◌, pure, throw, lift, is_some, find, update_where,
  count_where, named, find_user,
}

-- The crate argon2: hashing under a salt into a PHC string (`none` is its error), parsing a PHC
-- string, and verifying. What it documents: a password verifies against its own hash.
pub record Argon : Type 1 where
  pub Phc : Type 0
  pub hash_with : Text → Text → Option Text
  pub parse : Text → Option Phc
  pub verify : Text → Phc → Bool
  pub verify_hash :
      (password salt h : Text)
      → hash_with password salt ≡ some h
      → (phc : Phc) × (parse h ≡ some phc) × (verify password phc ≡ true)

abbrev pub min_password_chars : ℕ
min_password_chars = 6

abbrev pub result_of : Option Text → Result Text
result_of none = err hash
result_of (some h) = ok h

abbrev pub some_row : Option User → Result User
some_row none = err not_found
some_row (some u) = ok u

abbrev pub when : Bool → ℕ → Option ℕ
when b now = if b then some now else none

abbrev pub insert_user : (Db → User) → M (Unit {0})
insert_user row db =
    (ok tt, record db { users = db.users ++ row db ∷ []; next_user = suc db.next_user })

abbrev pub local_named : Text → User → Bool
local_named username u = named username u && not u.is_remote

abbrev pub local_id : ℕ → User → Bool
local_id user_id u = u.id == user_id && not u.is_remote

abbrev pub update_users : (User → Bool) → (User → User) → M ℕ
update_users p f db = (ok (count_where p db.users), record db { users = update_where p f db.users })

module _ (argon : Argon) where
  -- `hash_password`, given the sixteen random bytes (`none` where the source of them fails)
  unfoldable pub hash_password : Option Text → Text → Result Text
  hash_password none password = err hash
  hash_password (some salt) password = result_of (argon.hash_with password salt)

  abbrev pub verifies : Text → Option (argon.Phc) → Bool
  verifies password none = false
  verifies password (some phc) = argon.verify password phc

  unfoldable pub verify_password : Text → Text → Bool
  verify_password password h = verifies password (argon.parse h)

  -- The row that `register_user` inserts.
  abbrev pub new_user : Policy → ℕ → Text → Text → Db → User
  new_user policy now username h db = record {
    id = db.next_user;
    username = username;
    password_hash = h;
    role = codes "user";
    created_at = now;
    banned_at = none;
    validated_at = when (not policy.require_validation) now;
    is_remote = false;
    password_reset_at = none;
  }

  unfoldable pub register_user : Option Text → ℕ → Text → Text → Policy → M User
  unfolding hash_password find_user
  register_user salt now username password policy =
      if is_reserved policy username then throw username_reserved else (do
        lift (validate_username username)
        taken ← find_user username
        if is_some taken then throw username_taken else (do
          h ← lift (hash_password salt password)
          insert_user (new_user policy now username h)
          row ← find_user username
          lift (some_row row)))

  unfoldable pub set_password : Option Text → ℕ → Text → Text → Bool → M Bool
  unfolding hash_password
  set_password salt now username new_password force_change =
      if ltb (length new_password) min_password_chars
      then throw (password_too_short min_password_chars)
      else (do
        h ← lift (hash_password salt new_password)
        affected ←
            update_users (local_named username)
              (λ u. record u { password_hash = h; password_reset_at = when force_change now })
        pure (ltb 0 affected))

  unfoldable pub set_own_password : Option Text → ℕ → Text → M (Unit {0})
  unfolding hash_password
  set_own_password salt user_id new_password =
      if ltb (length new_password) min_password_chars
      then throw (password_too_short min_password_chars)
      else (do
        h ← lift (hash_password salt new_password)
        affected ←
            update_users (local_id user_id)
              (λ u. record u { password_hash = h; password_reset_at = none })
        pure tt)

  unfoldable pub change_password : Option Text → ℕ → Text → Text → M (Unit {0})
  unfolding set_own_password verify_password
  change_password salt user_id current new_password db =
      bind_result (some_row (find (local_id user_id) db.users), db)
        λ user.
          if not (verify_password current user.password_hash)
          then throw password_incorrect
          else set_own_password salt user_id new_password

  abbrev guest_row : ℕ → Text → Db → User
  guest_row now h db = record {
    id = db.next_user;
    username = codes "guest";
    password_hash = h;
    role = codes "guest";
    created_at = now;
    banned_at = none;
    validated_at = some now;
    is_remote = false;
    password_reset_at = none;
  }

  pub ensure_guest : Option Text → ℕ → Text → M (Unit {0})
  unfolding hash_password find_user
  ensure_guest salt now password = do
    found ← find_user (codes "guest")
    if is_some found
        then pure tt
        else (do h ← lift (hash_password salt password); insert_user (guest_row now h))
