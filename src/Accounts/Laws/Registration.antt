-- ===== src/Accounts/Laws/Registration.antt =====
-- What `register_user` of src/services/auth.rs lets into the table of accounts.
use bbs_rs.Prelude.{
  ℕ, suc, ◌≡◌, ◌≢◌, refl, sym, ap, ◌∙◌, ◌⊎◌, inl, inr, false, List, [], ◌∷◌, ◌++◌, Option, none,
  Bool-cases, Option-cases, Text, eq→text_eq, text_eq_refl,
}
use mathlib.Core.Path.{subst}
use bbs_rs.Error.{Result-cases, Result, ok, err}
use bbs_rs.Accounts.Names.{Policy, is_reserved, validate_username, IsName, validate_username_iff}
use bbs_rs.Accounts.Tables.{User, Db, find, named, find_user}
use bbs_rs.Accounts.Passwords.{Argon, hash_password, register_user, new_user}
use bbs_rs.Prelude.{In, find-none, find-append_none}
use bbs_rs.Accounts.Laws.Admission.{HasUniqueNames}

-- No account has the name.
abbrev pub IsFree : Text → Db → Type 0
IsFree username db = (u : User) → In u db.users → u.username ≢ username

-- The accounts with one more.
abbrev pub with_user : User → Db → Db
with_user u db = record db { users = db.users ++ u ∷ []; next_user = suc db.next_user }

-- What a registration may do: be refused and leave the tables as they were, or accept a name
-- that is well formed, not reserved and free, and add the one row that it returns, a hash of
-- the password in it.
abbrev pub Registers :
    Argon → Option Text → ℕ → Text → Text → Policy → Db → Result User × Db → Type 0
Registers argon salt now username password policy db (err e, db') = db' ≡ db
Registers argon salt now username password policy db (ok u, db') =
    (h : Text) × IsName username
    × (is_reserved policy username ≡ false)
    × IsFree username db
    × (hash_password argon salt password ≡ ok h)
    × (u ≡ new_user argon policy now username h db)
    × (db' ≡ with_user u db)

IsFree-of_find :
    (username : Text) (db : Db) → find (named username) db.users ≡ none → IsFree username db
IsFree-of_find username db e u i same =
    cc (find-none (named username) db.users e u i, eq→text_eq u.username username same)

-- A registration either is refused and changes nothing, or registers a free name that the rules
-- accept and the policy does not reserve, and adds exactly the row it returns.
pub register_user-Registers :
    (argon : Argon) (salt : Option Text) (now : ℕ) (username password : Text) (policy : Policy)
    (db : Db)
    → Registers argon salt now username password policy db
        (register_user argon salt now username password policy db)
unfolding register_user find_user
register_user-Registers argon salt now username password policy db =
    elim (Bool-cases (is_reserved policy username)) [
      | inl reserved ↦ rw reserved refl
      | inr allowed ↦ elim (Result-cases (validate_username username)) [
        | inl (e, bad) ↦ rw (allowed, bad) refl
        | inr (_, good) ↦ elim (Option-cases (find (named username) db.users)) [
          | inr (v, taken) ↦ rw (allowed, good, taken) refl
          | inl free ↦ elim (Result-cases (hash_password argon salt password)) [
            | inl (e, failed) ↦ rw (allowed, good, free, failed) refl
            | inr (h, hashed) ↦
                let row = new_user argon policy now username h db in
                let back =
                  find-append_none (named username) db.users row free (text_eq_refl username) in
                rw (allowed, good, free, hashed, back)
                  (
                    h,
                    (validate_username_iff username).0 good,
                    allowed,
                    IsFree-of_find username db free,
                    hashed,
                    refl,
                    refl,
                  )
          ]
        ]
      ]
    ]

In-append : (us : List User) (u v : User) → In v (us ++ u ∷ []) → In v us ⊎ (v ≡ u)
In-append [] u v (inl e) = inr e
In-append [] u v (inr i) = absurd i
In-append (w ∷ us) u v (inl e) = inl (inl e)
In-append (w ∷ us) u v (inr i) = elim (In-append us u v i) [ inl j ↦ inl (inr j) | inr e ↦ inr e ]

with_user-HasUniqueNames :
    (db : Db) (u : User)
    → IsFree u.username db
    → HasUniqueNames db
    → HasUniqueNames (with_user u db)
with_user-HasUniqueNames db u free unique v w i j same = elim (In-append db.users u v i) [
  | inl a ↦ elim (In-append db.users u w j) [
    | inl b ↦ unique v w a b same
    | inr e ↦ absurd (free v a (same ∙ ap (λ (x : User). x.username) e))
  ]
  | inr d ↦ elim (In-append db.users u w j) [
    | inl b ↦ absurd (free w b (sym same ∙ ap (λ (x : User). x.username) d))
    | inr e ↦ d ∙ sym e
  ]
]

-- Whatever a registration answers, names stay unique.
pub register_user-HasUniqueNames :
    (argon : Argon) (salt : Option Text) (now : ℕ) (username password : Text) (policy : Policy)
    (db : Db)
    → HasUniqueNames db
    → HasUniqueNames (register_user argon salt now username password policy db).1
register_user-HasUniqueNames argon salt now username password policy db unique =
    kept (register_user argon salt now username password policy db)
      (register_user-Registers argon salt now username password policy db)
  where
    kept :
        (r : Result User × Db)
        → Registers argon salt now username password policy db r
        → HasUniqueNames r.1
    kept (err e, db') same = subst HasUniqueNames (sym same) unique
    kept (ok u, db') (h, _, _, free, _, row, same) = subst HasUniqueNames (sym same) (
        with_user-HasUniqueNames db u (λ v i e. free v i (e ∙ ap (λ (x : User). x.username) row))
          unique)
