-- ===== src/Accounts/Laws/Admission.antt =====
-- Who gets in: the two logins of src/services/auth.rs.
use bbs_rs.Prelude.{
  ℕ, ◌≡◌, refl, sym, ap, ◌∙◌, ◌↔◌, inl, inr, Bool, true, false, not, ◌&&◌, List, [], ◌∷◌, Option,
  some, Bool-cases, Option-cases, arith, Text, text_eq, text_eq→eq, eq→text_eq, any, ◌==◌,
}
use bbs_rs.Error.{ok}
use bbs_rs.Accounts.Tables.{User, UserKey, Db, M, is_banned, is_validated, find, named, find_user}
use bbs_rs.Accounts.Passwords.{Argon, verify_password}
use bbs_rs.Accounts.Login.{
  has_key, find_authorized, checked, verify_login, attempt_login, attempt_pubkey_login,
}
use bbs_rs.Prelude.{In, find-In, find-none}
use bbs_rs.Accounts.Laws.Decisions.{
  IsOpenTo, logged, outcome_of, decide-eq, refused_of_IsOpenTo, active-some, outcome-some,
  active_of, checked-some, checked_of,
}

-- No two accounts have one name, as the table's unique key has it.
abbrev pub HasUniqueNames : Db → Type 0
HasUniqueNames db = (u v : User) → In u db.users → In v db.users → u.username ≡ v.username → u ≡ v

find_unique :
    (p : User → Bool) (username : Text) (db : Db)
    → HasUniqueNames db
    → ((v : User) → p v ≡ true → v.username ≡ username)
    → (u : User) → In u db.users
    → u.username ≡ username
    → p u ≡ true
    → find p db.users ≡ some u
find_unique p username db unique named_p u i n h = elim (Option-cases (find p db.users)) [
  | inl missing ↦ cc (find-none p db.users missing u i)
  | inr (v, found) ↦
      let (j, q) = find-In p db.users found in
      found ∙ ap some (unique v u j i (named_p v q ∙ sym n))
]

-- The account stands in the table under the name, is not banned, is validated, and the
-- address is open.
abbrev pub MayEnter : ℕ → Text → Option Text → Db → User → Type 0
MayEnter now username ip db u =
    In u db.users
    × (u.username ≡ username)
    × (u.is_remote ≡ false)
    × (is_banned u ≡ false)
    × (is_validated u ≡ true)
    × IsOpenTo now ip db

-- A login always answers, writes one row of the log and nothing else, and the answer is the
-- account exactly where the predicate holds.
abbrev pub Decides : M (Option User) → ℕ → Text → Option Text → Db → (User → Type 0) → Type 0
Decides login now username ip db P =
    (outcome : Option User) × (login db ≡ (ok outcome, logged now username ip outcome db))
    × ((u : User) → (outcome ≡ some u) ↔ P u)

-- With unique names, a password login lets in exactly the local account of that name that is
-- neither banned nor pending, whose hash the password verifies against, from an address no live
-- ban names; and every attempt, whatever its outcome, is logged once and changes nothing else.
pub attempt_login-Decides :
    (argon : Argon) (now : ℕ) (username password : Text) (ip : Option Text) (db : Db)
    → HasUniqueNames db
    → Decides
        (attempt_login argon now username password ip)
        now
        username
        ip
        db
        λ u. MayEnter now username ip db u × (verify_password argon password u.password_hash ≡ true)
unfolding attempt_login verify_login find_user
attempt_login-Decides argon now username password ip db unique = (
  outcome_of now ip found db,
  decide-eq now username ip (verify_login argon username password) found db refl,
  λ u. (sound u, complete u),
)
  where
    found : Option User
    found = checked argon password (find (named username) db.users)

    sound :
        (u : User)
        → outcome_of now ip found db ≡ some u
        → MayEnter now username ip db u × (verify_password argon password u.password_hash ≡ true)
    sound u e =
        let (act, open_to) = outcome-some now ip found db e in
        let (chk, b, v) = active-some found act in
        let (fnd, r, ver) = checked-some argon password (find (named username) db.users) chk in
        let (i, n) = find-In (named username) db.users fnd in
        ((i, text_eq→eq u.username username n, r, b, v, open_to), ver)

    complete :
        (u : User)
        → MayEnter now username ip db u × (verify_password argon password u.password_hash ≡ true)
        → outcome_of now ip found db ≡ some u
    complete u ((i, n, r, b, v, open_to), ver) =
        let fnd =
          find_unique (named username) username db unique (λ w. text_eq→eq w.username username) u i
            n (eq→text_eq u.username username n) in
        rw (refused_of_IsOpenTo now ip db open_to, fnd, checked_of argon password u r ver)
          (active_of u b v)

-- A key of the account with the fingerprint.
abbrev pub HoldsKey : Text → Db → User → Type 0
HoldsKey fingerprint db u =
    (k : UserKey) × In k db.keys × (k.user_id ≡ u.id) × (k.fingerprint ≡ fingerprint)

any-In :
    (p : UserKey → Bool) (ks : List UserKey)
    → any p ks ≡ true
    → (k : UserKey) × In k ks × (p k ≡ true)
any-In p [] e = cc
any-In p (k ∷ ks) e = elim (Bool-cases (p k)) [
  | inl hit ↦ (k, inl refl, hit)
  | inr miss ↦ let (k', i, h) = any-In p ks (ground arith) in (k', inr i, h)
]

any_of_In :
    (p : UserKey → Bool) (ks : List UserKey) (k : UserKey) → In k ks → p k ≡ true → any p ks ≡ true
any_of_In p [] k i h = absurd i
any_of_In p (j ∷ ks) k (inl e) h = ground arith
any_of_In p (j ∷ ks) k (inr i) h = let rest = any_of_In p ks k i h in ground arith

-- With unique names, a key login lets in exactly the local account of that name, neither banned
-- nor pending, that holds a key with the fingerprint, from an address no live ban names; it logs
-- as a password login does.
pub attempt_pubkey_login-Decides :
    (now : ℕ) (username fingerprint : Text) (ip : Option Text) (db : Db)
    → HasUniqueNames db
    → Decides
        (attempt_pubkey_login now username fingerprint ip)
        now
        username
        ip
        db
        λ u. MayEnter now username ip db u × HoldsKey fingerprint db u
unfolding attempt_pubkey_login find_authorized
attempt_pubkey_login-Decides now username fingerprint ip db unique = (
  outcome_of now ip found db,
  decide-eq now username ip (find_authorized username fingerprint) found db refl,
  λ u. (sound u, complete u),
)
  where
    p : User → Bool
    p u = named username u && has_key db.keys fingerprint u && not u.is_remote

    found : Option User
    found = find p db.users

    key_test : User → UserKey → Bool
    key_test u k = k.user_id == u.id && text_eq k.fingerprint fingerprint

    sound :
        (u : User)
        → outcome_of now ip found db ≡ some u
        → MayEnter now username ip db u × HoldsKey fingerprint db u
    sound u e =
        let (act, open_to) = outcome-some now ip found db e in
        let (fnd, b, v) = active-some found act in
        let (i, h) = find-In p db.users fnd in
        let (k, j, q) = any-In (key_test u) db.keys (ground arith) in
        (
          (i, text_eq→eq u.username username (ground arith), ground arith, b, v, open_to),
          (k, j, ground arith, text_eq→eq k.fingerprint fingerprint (ground arith)),
        )

    named_p : (v : User) → p v ≡ true → v.username ≡ username
    named_p v q = text_eq→eq v.username username (ground arith)

    complete :
        (u : User)
        → MayEnter now username ip db u × HoldsKey fingerprint db u
        → outcome_of now ip found db ≡ some u
    complete u ((i, n, r, b, v, open_to), (k, j, owner, same)) =
        let fp = eq→text_eq k.fingerprint fingerprint same in
        let keyed = any_of_In (key_test u) db.keys k j (ground arith) in
        let nm = eq→text_eq u.username username n in
        let fnd = find_unique p username db unique named_p u i n (ground arith) in
        rw (refused_of_IsOpenTo now ip db open_to, fnd) (active_of u b v)
