-- ===== src/Accounts/Admin.antt =====
-- src/services/admin.rs: what an operator does to accounts and addresses.
use bbs_rs.Prelude.{
  ℕ, Bool, true, false, not, ◌&&◌, List, [], ◌∷◌, Option, none, some, Text, codes, text_eq,
  if◌then◌else◌, ◌==◌, ltb, leb, any, map, take,
}
use bbs_rs.Error.{not_found, bad_role, ok, err}
use bbs_rs.Accounts.Tables.{
  User, IpBan, Login, M, throw, is_some, find, update_where, delete_where, count_where, named,
}
use bbs_rs.Accounts.Login.{unexpired}

abbrev pub roles : List Text
roles = codes "guest" ∷ codes "user" ∷ codes "admin" ∷ []

-- `SELECT … WHERE`, every row
abbrev pub select {ℓ} : {A : Type ℓ} → (A → Bool) → List A → List A
select p [] = []
select p (x ∷ xs) = if p x then x ∷ select p xs else select p xs

-- The rows stand in the order of their ids.
pub list_users : M (List User)
list_users db = (ok (select (λ u. not u.is_remote) db.users), db)

pub primary_admin : M (Option User)
primary_admin db = (ok (find (λ u. text_eq u.role (codes "admin") && not u.is_remote) db.users), db)

unfoldable pub ban_user : ℕ → Text → M (Unit {0})
ban_user now username db = (
  ok tt,
  record db {
    users = update_where (named username) (λ u. record u { banned_at = some now }) db.users;
  },
)

unfoldable pub unban_user : Text → M (Unit {0})
unban_user username db = (
  ok tt,
  record db { users = update_where (named username) (λ u. record u { banned_at = none }) db.users },
)

abbrev pub pending : Text → User → Bool
pending username u = named username u && not (is_some u.validated_at)

unfoldable pub validate_user : ℕ → Text → M Bool
validate_user now username db = (
  ok (ltb 0 (count_where (pending username) db.users)),
  record db {
    users = update_where (pending username) (λ u. record u { validated_at = some now }) db.users;
  },
)

pub reject_user : Text → M Bool
reject_user username db =
    let p = λ (u : User). pending username u && not u.is_remote in
    (ok (ltb 0 (count_where p db.users)), record db { users = delete_where p db.users })

pub set_role : Text → Text → M (Unit {0})
set_role username role =
    if not (any (λ r. text_eq r role) roles) then throw (bad_role role) else λ db.
    let db' = record db {
      users = update_where (named username) (λ u. record u { role = role }) db.users;
    } in
    if count_where (named username) db.users == 0 then (err not_found, db') else (ok tt, db')

abbrev pub upsert_ban : IpBan → List IpBan → List IpBan
upsert_ban b [] = b ∷ []
upsert_ban b (c ∷ cs) = if text_eq c.ip b.ip then b ∷ cs else c ∷ upsert_ban b cs

unfoldable pub ban_ip : ℕ → Text → Text → Option ℕ → M (Unit {0})
ban_ip now ip reason expires_at db =
    let row : IpBan = record {
      ip = ip;
      reason = reason;
      created_at = now;
      expires_at = expires_at;
    } in
    (ok tt, record db { ip_bans = upsert_ban row db.ip_bans })

pub unban_ip : Text → M (Unit {0})
unban_ip ip db = (ok tt, record db { ip_bans = delete_where (λ b. text_eq b.ip ip) db.ip_bans })

abbrev expired : ℕ → Option ℕ → Bool
expired now none = false
expired now (some t) = leb t now

pub purge_expired_ip_bans : ℕ → M ℕ
purge_expired_ip_bans now db =
    let p = λ (b : IpBan). expired now b.expires_at in
    (ok (count_where p db.ip_bans), record db { ip_bans = delete_where p db.ip_bans })

pub banned_usernames : M (List Text)
banned_usernames db = (ok (map (λ u. u.username) (select (λ u. is_some u.banned_at) db.users)), db)

pub banned_ips : ℕ → M (List Text)
banned_ips now db = (ok (map (λ b. b.ip) (select (λ b. unexpired now b.expires_at) db.ip_bans)), db)

abbrev by_name : Option Text → Login → Bool
by_name none l = true
by_name (some username) l = text_eq l.username username

-- `limit` rows, newest first, as `logins` is kept
pub recent_logins : Option Text → ℕ → M (List Login)
recent_logins username limit db = (ok (take limit (select (by_name username) db.logins)), db)
