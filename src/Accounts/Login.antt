-- ===== src/Accounts/Login.antt =====
-- The login decisions of src/services/auth.rs, with the parts of admin.rs and keys.rs they call.
use bbs_rs.Prelude.{
  ℕ, suc, Bool, true, false, not, ◌&&◌, List, [], ◌∷◌, ◌++◌, Option, none, some, Text, text_eq,
  if◌then◌else◌, ◌==◌, ltb, any,
}
use bbs_rs.Error.{key_exists, ok}
use bbs_rs.Accounts.Tables.{
  User, UserKey, M, bind_result, ◌>>=◌, ◌>>◌, pure, throw, is_some, is_banned, is_validated, find,
  count_where, delete_where, named, find_user,
}
use bbs_rs.Accounts.Passwords.{Argon, verify_password}

abbrev pub unexpired : ℕ → Option ℕ → Bool
unexpired now none = true
unexpired now (some t) = ltb now t

-- `is_ip_banned` of admin.rs
unfoldable pub is_ip_banned : ℕ → Text → M Bool
is_ip_banned now ip db =
    (ok (ltb 0 (count_where (λ b. text_eq b.ip ip && unexpired now b.expires_at) db.ip_bans)), db)

-- `record_login` of admin.rs
unfoldable pub record_login : ℕ → Text → Option Text → Bool → M (Unit {0})
record_login now username ip success db = (
  ok tt,
  record db {
    logins =
        record {
          id = db.next_login;
          username = username;
          ip = ip;
          success = success;
          created_at = now;
        }
        ∷ db.logins;
    next_login = suc db.next_login;
  },
)

-- The test of the pattern guard in both logins.
abbrev pub active : Option User → Option User
active none = none
active (some u) = if not (is_banned u) && is_validated u then some u else none

abbrev pub has_key : List UserKey → Text → User → Bool
has_key keys fingerprint u = any (λ k. k.user_id == u.id && text_eq k.fingerprint fingerprint) keys

-- `find_authorized` of keys.rs
unfoldable pub find_authorized : Text → Text → M (Option User)
find_authorized username fingerprint db = (
  ok (find (λ u. named username u && has_key db.keys fingerprint u && not u.is_remote) db.users),
  db,
)

-- `is_registered` and `add_key` of keys.rs
unfoldable pub is_registered : ℕ → Text → M Bool
is_registered user_id fingerprint db = (
  ok (ltb 0 (count_where (λ k. k.user_id == user_id && text_eq k.fingerprint fingerprint) db.keys)),
  db,
)

unfoldable pub add_key : ℕ → ℕ → Text → Text → Text → Text → M ℕ
unfolding is_registered
add_key now user_id algorithm fingerprint public_key label db =
    bind_result (is_registered user_id fingerprint db) λ known.
      if known then throw key_exists else λ t. (
        ok t.next_key,
        record t {
          keys =
              t.keys
              ++ record {
                id = t.next_key;
                user_id = user_id;
                algorithm = algorithm;
                fingerprint = fingerprint;
                public_key = public_key;
                label = label;
                created_at = now;
              }
                ∷ [];
          next_key = suc t.next_key;
        },
      )

-- `delete_key` and `delete_key_by_id` of keys.rs
pub delete_key : ℕ → ℕ → M Bool
delete_key user_id id db =
    let p = λ (k : UserKey). k.id == id && k.user_id == user_id in
    (ok (ltb 0 (count_where p db.keys)), record db { keys = delete_where p db.keys })

pub delete_key_by_id : ℕ → M Bool
delete_key_by_id id db =
    let p = λ (k : UserKey). k.id == id in
    (ok (ltb 0 (count_where p db.keys)), record db { keys = delete_where p db.keys })

abbrev pub refused_ip : ℕ → Option Text → M Bool
refused_ip now none = pure false
refused_ip now (some ip) = is_ip_banned now ip

-- Both logins: a banned address is refused, the caller's lookup is asked, and the attempt is
-- recorded.
abbrev pub decide : ℕ → Text → Option Text → M (Option User) → M (Option User)
decide now username ip look_up = do
  refused ← refused_ip now ip
  if refused then (do record_login now username ip false; pure none) else (do
    found ← look_up
    let outcome = active found
    record_login now username ip (is_some outcome)
    pure outcome)

module _ (argon : Argon) where
  abbrev pub checked : Text → Option User → Option User
  checked password none = none
  checked password (some u) =
      if not u.is_remote && verify_password argon password u.password_hash then some u else none

  unfoldable pub verify_login : Text → Text → M (Option User)
  unfolding find_user verify_password
  verify_login username password = do found ← find_user username; pure (checked password found)

  unfoldable pub attempt_login : ℕ → Text → Text → Option Text → M (Option User)
  unfolding verify_login is_ip_banned record_login is_banned is_validated
  attempt_login now username password ip = decide now username ip (verify_login username password)

unfoldable pub attempt_pubkey_login : ℕ → Text → Text → Option Text → M (Option User)
unfolding find_authorized is_ip_banned record_login is_banned is_validated
attempt_pubkey_login now username fingerprint ip =
    decide now username ip (find_authorized username fingerprint)
