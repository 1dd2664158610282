-- ===== src/Accounts/Laws/Bans.antt =====
-- The bans of src/services/admin.rs and what they do to the logins of src/services/auth.rs.
use bbs_rs.Prelude.{
  In, ℕ, suc, ◌≡◌, refl, ◌∙◌, inl, inr, Bool, true, false, not, ◌&&◌, List, [], ◌∷◌, Option, none,
  some, Bool-cases, arith, Text, text_eq, text_eq_refl, lt→ltb,
}
use bbs_rs.Error.{ok}
use bbs_rs.Accounts.Tables.{
  User, IpBan, Login, Db, M, is_banned, find, update_where, named, find_user,
}
use bbs_rs.Accounts.Passwords.{Argon, verify_password}
use bbs_rs.Accounts.Login.{
  unexpired, active, has_key, find_authorized, decide, checked, verify_login, attempt_login,
  attempt_pubkey_login,
}
use bbs_rs.Accounts.Admin.{upsert_ban, ban_user, ban_ip}
use bbs_rs.Prelude.{count_where_of_In}
use bbs_rs.Accounts.Laws.Decisions.{is_refused, attempt, decide-eq}

In-upsert_ban : (b : IpBan) (bs : List IpBan) → In b (upsert_ban b bs)
In-upsert_ban b [] = inl refl
In-upsert_ban b (c ∷ cs) = elim (Bool-cases (text_eq c.ip b.ip)) [
  | inl same ↦ rw same (inl refl)
  | inr other ↦ rw other (inr (In-upsert_ban b cs))
]

-- The answer of a login that refuses.
abbrev pub Refuses : M (Option User) → Db → Type 0
Refuses login db =
    (l : Login) × (login db
      ≡ (ok none, record db { logins = l ∷ db.logins; next_login = suc db.next_login }))
    × (l.success ≡ false)

-- Once an address is banned with an end that is not reached, every login from it is refused,
-- whatever name and credential it brings.
pub ban_ip-Refuses :
    (argon : Argon) (now at : ℕ) (ip reason : Text) (until : Option ℕ) (db : Db)
    (username password fingerprint : Text)
    → unexpired now until ≡ true
    → let db' = (ban_ip at ip reason until db).1 in
      Refuses (attempt_login argon now username password (some ip)) db'
      × Refuses (attempt_pubkey_login now username fingerprint (some ip)) db'
unfolding ban_ip attempt_login verify_login find_user attempt_pubkey_login find_authorized
ban_ip-Refuses argon now at ip reason until db username password fingerprint live =
    let db' : Db = (ban_ip at ip reason until db).1 in
    let row : IpBan = record { ip = ip; reason = reason; created_at = at; expires_at = until } in
    let shut : is_refused now (some ip) db' ≡ true = lt→ltb 0 _ (
      count_where_of_In (λ b. text_eq b.ip ip && unexpired now b.expires_at) db'.ip_bans row
        (In-upsert_ban row db.ip_bans) (rw (text_eq_refl ip, live) refl)) in
    (
      refuses (verify_login argon username password)
          (checked argon password (find (named username) db'.users)) db' refl shut,
      refuses (find_authorized username fingerprint)
          (find (λ u. named username u && has_key db'.keys fingerprint u && not u.is_remote)
            db'.users)
          db' refl shut,
    )
  where
    refuses :
        (look_up : M (Option User)) (found : Option User) (d : Db)
        → look_up d ≡ (ok found, d)
        → is_refused now (some ip) d ≡ true
        → Refuses (decide now username (some ip) look_up) d
    refuses look_up found d e shut = (
      attempt d.next_login now username (some ip) none,
      decide-eq now username (some ip) look_up found d e ∙ rw shut refl,
      refl,
    )

find-banned :
    (q : User → Bool) (p : User → Bool) (now : ℕ) (us : List User)
    → ((u : User) → q u ≡ true → p u ≡ true)
    → ((u : User) → q (record u { banned_at = some now }) ≡ q u)
    → active (find q (update_where p (λ u. record u { banned_at = some now }) us)) ≡ none
unfolding is_banned
find-banned q p now [] le keeps = refl
find-banned q p now (u ∷ us) le keeps = elim (Bool-cases (p u)) [
  | inl hit ↦ elim (Bool-cases (q u)) [
    | inl asked ↦ rw (hit, keeps u, asked) refl
    | inr other ↦ rw (hit, keeps u, other) (find-banned q p now us le keeps)
  ]
  | inr miss ↦
      let other : q u ≡ false = elim (Bool-cases (q u)) [
        | inl asked ↦ cc (le u asked)
        | inr other ↦ other
      ] in
      rw (miss, other) (find-banned q p now us le keeps)
]

keeps_checked :
    (argon : Argon) (password : Text) (found : Option User)
    → active found ≡ none
    → active (checked argon password found) ≡ none
keeps_checked argon password none e = refl
keeps_checked argon password (some u) e =
    elim (Bool-cases (not u.is_remote && verify_password argon password u.password_hash)) [
      | inl yes_ ↦ rw yes_ e
      | inr no_ ↦ rw no_ refl
    ]

Refuses-inactive :
    (now : ℕ) (username : Text) (ip : Option Text) (look_up : M (Option User)) (found : Option User)
    (db : Db)
    → look_up db ≡ (ok found, db)
    → active found ≡ none
    → Refuses (decide now username ip look_up) db
Refuses-inactive now username ip look_up found db e inactive =
    elim (Bool-cases (is_refused now ip db)) [
      | inl banned ↦ (
        attempt db.next_login now username ip none,
        decide-eq now username ip look_up found db e ∙ rw banned refl,
        refl,
      )
      | inr open_to ↦ (
        attempt db.next_login now username ip none,
        decide-eq now username ip look_up found db e ∙ rw (open_to, inactive) refl,
        refl,
      )
    ]

-- Once a name is banned, every login under it is refused, with a password or a key, from any
-- address.
pub ban_user-Refuses :
    (argon : Argon) (now at : ℕ) (username password fingerprint : Text) (ip : Option Text) (db : Db)
    → let db' = (ban_user at username db).1 in
      Refuses (attempt_login argon now username password ip) db'
      × Refuses (attempt_pubkey_login now username fingerprint ip) db'
unfolding ban_user attempt_login verify_login find_user attempt_pubkey_login find_authorized
ban_user-Refuses argon now at username password fingerprint ip db = (
  Refuses-inactive now username ip (verify_login argon username password)
      (checked argon password (find (named username) db'.users)) db' refl
      (keeps_checked argon password (find (named username) db'.users)
        (find-banned (named username) (named username) at db.users (λ u e. e) (λ u. refl))),
  Refuses-inactive now username ip (find_authorized username fingerprint) (find asked db'.users) db'
      refl (find-banned asked (named username) at db.users (λ u e. ground arith) (λ u. refl)),
)
  where
    db' : Db
    db' = (ban_user at username db).1

    asked : User → Bool
    asked u = named username u && has_key db.keys fingerprint u && not u.is_remote
