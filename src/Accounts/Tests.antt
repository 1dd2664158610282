-- ===== src/Accounts/Tests.antt =====
-- Runs of the account services on a small board, with a hash that keeps the password.
use bbs_rs.Prelude.{
  ℕ, map, ◌≡◌, refl, sym, ◌∙◌, true, false, [], ◌∷◌, none, some, inl, inr, arith, Text, codes,
  text_eq, eq→text_eq,
}
use bbs_rs.Error.{ok}
use bbs_rs.Accounts.Names.{Policy}
use bbs_rs.Accounts.Tables.{User, UserKey, Db}
use bbs_rs.Accounts.Passwords.{
  Argon, hash_password, verify_password, set_password, change_password, register_user,
}
use bbs_rs.Accounts.Login.{attempt_login, attempt_pubkey_login, verify_login}
use bbs_rs.Accounts.Admin.{ban_user}
use bbs_rs.Prelude.{In}
use bbs_rs.Accounts.Broadcasts.{Outbox, broadcasts_after, latest_broadcast_id}
use bbs_rs.Accounts.Laws.Broadcasts.{queue_all, broadcasts_after-queue_all}
use bbs_rs.Accounts.Laws.Admission.{
  HasUniqueNames, MayEnter, Decides, HoldsKey, attempt_login-Decides, attempt_pubkey_login-Decides,
}
use bbs_rs.Accounts.Laws.Bans.{Refuses, ban_user-Refuses}
use bbs_rs.Accounts.Laws.Registration.{
  Registers, register_user-Registers, register_user-HasUniqueNames,
}
use bbs_rs.Accounts.Laws.Credentials.{Rotates, set_password-verify_login, change_password-Rotates}

some_inj : {a b : Text} → some a ≡ some b → a ≡ b
some_inj q = cc

abbrev plain : Argon
plain = record {
  Phc = Text;
  hash_with = λ password salt. some password;
  parse = λ h. some h;
  verify = text_eq;
  verify_hash = λ password salt h e. (h, refl, eq→text_eq password h (some_inj e));
}

abbrev alice : User
alice = record {
  id = 1;
  username = codes "alice";
  password_hash = codes "secret";
  role = codes "user";
  created_at = 5;
  banned_at = none;
  validated_at = some 5;
  is_remote = false;
  password_reset_at = none;
}

abbrev laptop : UserKey
laptop = record {
  id = 1;
  user_id = 1;
  algorithm = codes "ssh-ed25519";
  fingerprint = codes "SHA256:abc";
  public_key = codes "AAAA";
  label = codes "laptop";
  created_at = 6;
}

abbrev board : Db
board = record {
  users = alice ∷ [];
  next_user = 2;
  keys = laptop ∷ [];
  next_key = 2;
  ip_bans = [];
  logins = [];
  next_login = 1;
}

abbrev open_policy : Policy
open_policy = record { reserved_usernames = codes "root" ∷ []; require_validation = true }

board-HasUniqueNames : HasUniqueNames board
board-HasUniqueNames u v (inl a) (inl b) same = a ∙ sym b
board-HasUniqueNames u v (inl a) (inr j) same = absurd j
board-HasUniqueNames u v (inr i) j same = absurd i

alice_enters : attempt_login plain 9 (codes "alice") (codes "secret") none board ≡ (
  ok (some alice),
  record board {
    logins =
        record { id = 1; username = codes "alice"; ip = none; success = true; created_at = 9 } ∷ [];
    next_login = 2;
  },
)
unfolding attempt_login verify_login
alice_enters = refl

attempt_login-Decides_example :
    Decides
      (attempt_login plain 9 (codes "alice") (codes "secret") none)
      9
      (codes "alice")
      none
      board
      λ u.
        MayEnter 9 (codes "alice") none board u
        × (verify_password plain (codes "secret") u.password_hash ≡ true)
attempt_login-Decides_example =
    attempt_login-Decides plain 9 (codes "alice") (codes "secret") none board board-HasUniqueNames

attempt_pubkey_login-Decides_example :
    Decides
      (attempt_pubkey_login 9 (codes "alice") (codes "SHA256:abc") none)
      9
      (codes "alice")
      none
      board
      λ u. MayEnter 9 (codes "alice") none board u × HoldsKey (codes "SHA256:abc") board u
attempt_pubkey_login-Decides_example =
    attempt_pubkey_login-Decides 9 (codes "alice") (codes "SHA256:abc") none board
      board-HasUniqueNames

ban_user-Refuses_example :
    let db' = (ban_user 7 (codes "alice") board).1 in
    Refuses (attempt_login plain 9 (codes "alice") (codes "secret") none) db'
    × Refuses (attempt_pubkey_login 9 (codes "alice") (codes "SHA256:abc") none) db'
ban_user-Refuses_example =
    ban_user-Refuses plain 9 7 (codes "alice") (codes "secret") (codes "SHA256:abc") none board

register_user-Registers_example :
    Registers plain
      (some [])
      9
      (codes "bob")
      (codes "hunter2")
      open_policy
      board
      (register_user plain (some []) 9 (codes "bob") (codes "hunter2") open_policy board)
register_user-Registers_example =
    register_user-Registers plain (some []) 9 (codes "bob") (codes "hunter2") open_policy board

register_user-HasUniqueNames_example :
    HasUniqueNames
      (register_user plain (some []) 9 (codes "bob") (codes "hunter2") open_policy board).1
register_user-HasUniqueNames_example =
    register_user-HasUniqueNames plain (some []) 9 (codes "bob") (codes "hunter2") open_policy board
      board-HasUniqueNames

set_password-verify_login_example :
    (db' : Db) × (set_password plain (some []) 9 (codes "alice") (codes "hunter2") true board
      ≡ (ok true, db'))
    × (verify_login plain (codes "alice") (codes "hunter2") db' ≡ (
      ok (some (record alice { password_hash = codes "hunter2"; password_reset_at = some 9 })),
      db',
    ))
    × ((v : User) → In v board.users → v.is_remote ≡ true → In v db'.users)
unfolding hash_password
set_password-verify_login_example =
    set_password-verify_login plain (some []) 9 (codes "alice") (codes "hunter2") (codes "hunter2")
      true board alice refl refl (omega arith) refl

change_password-Rotates_example :
    Rotates plain
      (some [])
      1
      (codes "secret")
      (codes "hunter2")
      board
      (change_password plain (some []) 1 (codes "secret") (codes "hunter2") board)
change_password-Rotates_example =
    change_password-Rotates plain (some []) 1 (codes "secret") (codes "hunter2") board

abbrev outbox : Outbox
outbox = record { rows = record { id = 1; text = codes "old"; created_at = 3 } ∷ []; next_id = 2 }

broadcasts_after-queue_all_example :
    map
      (λ (r : ℕ × Text). r.1)
      (broadcasts_after
        (latest_broadcast_id outbox)
        (queue_all ((4, codes "one") ∷ (5, codes "two") ∷ []) outbox))
    ≡ map (λ (r : ℕ × Text). r.1) ((4, codes "one") ∷ (5, codes "two") ∷ [])
broadcasts_after-queue_all_example =
    broadcasts_after-queue_all outbox ((4, codes "one") ∷ (5, codes "two") ∷ [])
      (omega arith, (omega arith, tt))
