-- ===== src/Accounts/Laws/Credentials.antt =====
-- What the password changes of src/services/auth.rs keep.
use bbs_rs.Prelude.{
  ℕ, ◌≤◌, ◌≡◌, refl, ap, ◌∙◌, inl, inr, Bool, true, false, Option, none, some, Bool-cases,
  Option-cases, if◌then◌else◌, arith, length, Text, ltb, lt→ltb,
}
use bbs_rs.Error.{Result-cases, Result, ok, err}
use bbs_rs.Accounts.Tables.{User, Db, find, update_where, count_where, named, find_user}
use bbs_rs.Accounts.Passwords.{
  Argon, hash_password, verify_password, when, set_password, set_own_password, change_password,
  local_named, local_id,
}
use bbs_rs.Accounts.Login.{verify_login, checked}
use bbs_rs.Prelude.{In, find-In, find-update_where, count_where_of_In, In-update_where_kept}
use bbs_rs.Accounts.Laws.Decisions.{checked_of}

-- A password verifies against the hash that hashing it gives.
verify-hash :
    (argon : Argon) (salt : Option Text) (password h : Text)
    → hash_password argon salt password ≡ ok h
    → verify_password argon password h ≡ true
unfolding hash_password verify_password
verify-hash argon none password h e = cc
verify-hash argon (some salt) password h e = elim (Option-cases (argon.hash_with password salt)) [
  | inl failed ↦ cc (rw failed at e)
  | inr (h', made) ↦
      let same : h' ≡ h = ok_inj (rw made at e) in
      let (phc, read, good) = argon.verify_hash password salt h (made ∙ ap some same) in
      rw read good
]
  where
    ok_inj : {a b : Text} → ok a ≡ ok b → a ≡ b
    ok_inj q = cc

-- After a local account's password is set, the account logs in with it: the change reports one
-- account changed, the password is accepted under the name, the account is flagged as asked,
-- and no remote account is touched.
pub set_password-verify_login :
    (argon : Argon) (salt : Option Text) (now : ℕ) (username password h : Text)
    (force_change : Bool) (db : Db) (u : User)
    → find (named username) db.users ≡ some u
    → u.is_remote ≡ false
    → 6 ≤ length password
    → hash_password argon salt password ≡ ok h
    → (db' : Db) × (set_password argon salt now username password force_change db ≡ (ok true, db'))
      × (verify_login argon username password db' ≡ (
        ok (
            some (record u {
              password_hash = h;
              password_reset_at = if force_change then some now else none;
            })),
        db',
      ))
      × ((v : User) → In v db.users → v.is_remote ≡ true → In v db'.users)
unfolding set_password verify_login find_user
set_password-verify_login argon salt now username password h force_change db u found local long
      hashed =
    (
      db',
      rw (short, hashed, counted) refl,
      ap (λ r. (ok r, db')) logs_in,
      λ v i r.
          In-update_where_kept (local_named username) change db.users v i (rw r (ground arith)),
    )
  where
    change : User → User
    change v = record v { password_hash = h; password_reset_at = when force_change now }

    db' : Db
    db' = record db { users = update_where (local_named username) change db.users }

    here : In u db.users × (named username u ≡ true)
    here = find-In (named username) db.users found

    mine : local_named username u ≡ true
    mine = let n = here.1 in ground arith

    short : ltb (length password) 6 ≡ false
    short = ground arith

    counted : ltb 0 (count_where (local_named username) db.users) ≡ true
    counted = lt→ltb 0 _ (count_where_of_In (local_named username) db.users u here.0 mine)

    logs_in : checked argon password (find (named username) db'.users) ≡ some (change u)
    logs_in =
        let f =
          find-update_where (named username) (local_named username) change (λ v. refl) db.users u
            found in
        rw f (
          rw mine
            (checked_of argon password (change u) local (verify-hash argon salt password h hashed)))

-- What a change of one's own password may do: be refused and leave the tables as they were, or,
-- where the current password verifies, set the new one on that local account alone and lift
-- the forced change.
abbrev pub Rotates : Argon → Option Text → ℕ → Text → Text → Db → Result (Unit {0}) × Db → Type 0
Rotates argon salt user_id current new_password db (err e, db') = db' ≡ db
Rotates argon salt user_id current new_password db (ok _, db') =
    (u : User) × (h : Text) × In u db.users
    × (local_id user_id u ≡ true)
    × (verify_password argon current u.password_hash ≡ true)
    × (6 ≤ length new_password)
    × (verify_password argon new_password h ≡ true)
    × (db' ≡ record db {
      users =
          update_where (local_id user_id)
            (λ v. record v { password_hash = h; password_reset_at = none }) db.users;
    })

-- A change of one's own password either is refused and changes nothing, or had the current
-- password right and a new one of at least six characters, and sets a hash that the new one
-- verifies against on that account alone.
pub change_password-Rotates :
    (argon : Argon) (salt : Option Text) (user_id : ℕ) (current new_password : Text) (db : Db)
    → Rotates argon salt user_id current new_password db
        (change_password argon salt user_id current new_password db)
unfolding change_password set_own_password
change_password-Rotates argon salt user_id current new_password db =
    elim (Option-cases (find (local_id user_id) db.users)) [
      | inl missing ↦ rw missing refl
      | inr (u, found) ↦ elim (Bool-cases (verify_password argon current u.password_hash)) [
        | inr wrong ↦ rw (found, wrong) refl
        | inl right_ ↦ elim (Bool-cases (ltb (length new_password) 6)) [
          | inl short ↦ rw (found, right_, short) refl
          | inr long ↦ elim (Result-cases (hash_password argon salt new_password)) [
            | inl (e, failed) ↦ rw (found, right_, long, failed) refl
            | inr (h, hashed) ↦
                let (i, m) = find-In (local_id user_id) db.users found in
                rw (found, right_, long, hashed)
                  (
                    u,
                    h,
                    i,
                    m,
                    right_,
                    ground arith,
                    verify-hash argon salt new_password h hashed,
                    refl,
                  )
          ]
        ]
      ]
    ]
