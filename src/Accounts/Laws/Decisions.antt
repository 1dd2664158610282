-- ===== src/Accounts/Laws/Decisions.antt =====
-- What decides a login of src/services/auth.rs: the ban on the address, the lookup and the
-- account's state.
use bbs_rs.Prelude.{
  ℕ, suc, ◌≡◌, refl, ap, inl, inr, Bool, true, false, not, ◌&&◌, ◌∷◌, Option, none, some,
  Bool-cases, if◌then◌else◌, arith, Text, text_eq, text_eq→eq, eq→text_eq, ltb, ltb→lt, lt→ltb,
}
use bbs_rs.Error.{ok}
use bbs_rs.Accounts.Tables.{
  User, IpBan, Login, Db, M, is_some, is_banned, is_validated, count_where,
}
use bbs_rs.Accounts.Passwords.{Argon, verify_password}
use bbs_rs.Accounts.Login.{
  unexpired, is_ip_banned, record_login, active, refused_ip, decide, checked,
}
use bbs_rs.Prelude.{In, count_where-pos, count_where_of_In}

-- A ban on this address that has not expired.
abbrev pub Bans : ℕ → Text → IpBan → Type 0
Bans now ip b = (b.ip ≡ ip) × (unexpired now b.expires_at ≡ true)

-- No row bans the address that the attempt comes from, where it is known.
abbrev pub IsOpenTo : ℕ → Option Text → Db → Type 0
IsOpenTo now none db = Unit
IsOpenTo now (some ip) db = (b : IpBan) → In b db.ip_bans → ¬ (Bans now ip b)

abbrev pub is_refused : ℕ → Option Text → Db → Bool
is_refused now none db = false
is_refused now (some ip) db =
    ltb 0 (count_where (λ b. text_eq b.ip ip && unexpired now b.expires_at) db.ip_bans)

refused_ip-eq :
    (now : ℕ) (ip : Option Text) (db : Db) → refused_ip now ip db ≡ (ok (is_refused now ip db), db)
unfolding is_ip_banned
refused_ip-eq now none db = refl
refused_ip-eq now (some ip) db = refl

abbrev pub attempt : ℕ → ℕ → Text → Option Text → Option User → Login
attempt id now username ip outcome = record {
  id = id;
  username = username;
  ip = ip;
  success = is_some outcome;
  created_at = now;
}

-- The tables with one more row in the log.
abbrev pub logged : ℕ → Text → Option Text → Option User → Db → Db
logged now username ip outcome db = record db {
  logins = attempt db.next_login now username ip outcome ∷ db.logins;
  next_login = suc db.next_login;
}

-- What either login decides, and what it writes.
abbrev pub outcome_of : ℕ → Option Text → Option User → Db → Option User
outcome_of now ip found db = if is_refused now ip db then none else active found

pub decide-eq :
    (now : ℕ) (username : Text) (ip : Option Text) (look_up : M (Option User)) (found : Option User)
    (db : Db)
    → look_up db ≡ (ok found, db)
    → decide now username ip look_up db
      ≡ (ok (outcome_of now ip found db), logged now username ip (outcome_of now ip found db) db)
unfolding record_login
decide-eq now username ip look_up found db e = elim (Bool-cases (is_refused now ip db)) [
  | inl banned ↦ rw (refused_ip-eq now ip db, banned) refl
  | inr open_to ↦ rw (refused_ip-eq now ip db, open_to, e) refl
]

pub IsOpenTo-of_refused :
    (now : ℕ) (ip : Option Text) (db : Db) → is_refused now ip db ≡ false → IsOpenTo now ip db
IsOpenTo-of_refused now none db e = tt
IsOpenTo-of_refused now (some ip) db e = λ b i (same, live).
    let counted =
      count_where_of_In (λ c. text_eq c.ip ip && unexpired now c.expires_at) db.ip_bans b i
        (rw (eq→text_eq b.ip ip same, live) refl) in
    cc (lt→ltb 0 _ counted, e)

pub refused_of_IsOpenTo :
    (now : ℕ) (ip : Option Text) (db : Db) → IsOpenTo now ip db → is_refused now ip db ≡ false
refused_of_IsOpenTo now none db h = refl
refused_of_IsOpenTo now (some ip) db h = elim (Bool-cases (is_refused now (some ip) db)) [
  | inr e ↦ e
  | inl e ↦
      let (b, i, q) = count_where-pos _ db.ip_bans (ltb→lt 0 _ e) in
      absurd (h b i (text_eq→eq b.ip ip (ground arith), ground arith))
]

pub active-some :
    (found : Option User) {u : User}
    → active found ≡ some u
    → (found ≡ some u) × (is_banned u ≡ false) × (is_validated u ≡ true)
active-some none e = cc
active-some (some v) {u} e = elim (Bool-cases (not (is_banned v) && is_validated v)) [
  | inl yes_ ↦
      let same : v ≡ u = ground arith in
      (ap some same, rw (← same) (ground arith), rw (← same) (ground arith))
  | inr no_ ↦ ground arith
]

pub outcome-some :
    (now : ℕ) (ip : Option Text) (found : Option User) (db : Db) {u : User}
    → outcome_of now ip found db ≡ some u
    → (active found ≡ some u) × IsOpenTo now ip db
outcome-some now ip found db e = elim (Bool-cases (is_refused now ip db)) [
  | inl banned ↦ cc (rw banned at e)
  | inr open_to ↦ (rw open_to at e, IsOpenTo-of_refused now ip db open_to)
]

pub active_of : (u : User) → is_banned u ≡ false → is_validated u ≡ true → active (some u) ≡ some u
active_of u b v = rw (b, v) refl

pub checked-some :
    (argon : Argon) (password : Text) (found : Option User) {u : User}
    → checked argon password found ≡ some u
    → (found ≡ some u)
      × (u.is_remote ≡ false)
      × (verify_password argon password u.password_hash ≡ true)
checked-some argon password none e = cc
checked-some argon password (some v) {u} e =
    elim (Bool-cases (not v.is_remote && verify_password argon password v.password_hash)) [
      | inl yes_ ↦
          let same : v ≡ u = ground arith in
          (ap some same, rw (← same) (ground arith), rw (← same) (ground arith))
      | inr no_ ↦ ground arith
    ]

pub if_true {ℓ} : {A : Type ℓ} (b : Bool) (x y : A) → b ≡ true → (if b then x else y) ≡ x
if_true true x y e = refl
if_true false x y e = cc

pub checked_of :
    (argon : Argon) (password : Text) (u : User)
    → u.is_remote ≡ false
    → verify_password argon password u.password_hash ≡ true
    → checked argon password (some u) ≡ some u
checked_of argon password u r v =
    if_true (not u.is_remote && verify_password argon password u.password_hash) (some u) none
      (ground arith)
