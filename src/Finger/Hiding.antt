-- ===== src/Finger/Hiding.antt =====
-- src/services/finger.rs: the answers tell nothing of remote accounts and of those that opted out.
use bbs_rs.Prelude.{
  ℕ, ◌++◌, ◌≡◌, refl, sym, ap, ap₂, ◌∙◌, inl, inr, Bool, false, not, ◌&&◌, List, [], ◌∷◌, Option,
  none, some, map, any, Text, codes, text_eq, text_eq→eq, if◌then◌else◌, find, delete_where,
  Bool-cases, arith,
}
use bbs_rs.Accounts.Admin.{select}
use bbs_rs.Presence.{Channels, Presence, OnlineUser, list}
use bbs_rs.Profiles.{ProfileRow, Db, hydrated}
use bbs_rs.Finger.{
  query, optout_names, joined, who_online, listed, no_such_user, card_or, user, answer, respond,
  crlf,
}
use bbs_rs.Finger.Rows.{
  HasUniqueNames, is_hidden, redacted, filtered, find-delete_where, find_same, and_assoc,
  find_apart, named, find-filtered, unhidden,
}
use bbs_rs.Finger.Listing.{who_lines-delete_where, without, list-without}

optout_names-redacted :
    (rs : List ProfileRow)
    → map (λ r. r.username) (select (λ r. r.finger_optout) (delete_where is_hidden rs)) ≡ []
optout_names-redacted [] = refl
optout_names-redacted (r ∷ rs) =
    let rest = optout_names-redacted rs in
    elim (Bool-cases (is_hidden r)) [
      | inl hidden ↦ rw hidden rest
      | inr shown ↦ let not_out : r.finger_optout ≡ false = ground arith in rw (shown, not_out) rest
    ]

who_online-redacted :
    (now : ℕ) (online : List OnlineUser) (db : Db)
    → who_online now
        (delete_where (λ u. any (text_eq u.username) (optout_names db)) online)
        (redacted db)
      ≡ who_online now online db
who_online-redacted now online db = rw (optout_names-redacted db.users) (
    ap (λ ls. codes "Who's online:" ++ crlf ++ joined ls)
      (who_lines-delete_where now (optout_names db) online))

module _ (fmt_time : ℕ → Text) (now : ℕ) (n : Text) (db : Db) where
  -- What `user` answers, from the row of that name, whatever else the tables hold
  abbrev card_of : List OnlineUser → Option ProfileRow → Text
  card_of online none = no_such_user n
  card_of online (some r) =
      if is_hidden r
      then no_such_user n
      else card_or fmt_time now (find (λ u. text_eq u.username n) online) n (hydrated db (some r))

  abbrev is_local : ProfileRow → Bool
  is_local r = not r.is_remote

  abbrev is_shown : ProfileRow → Bool
  is_shown r = not (is_hidden r)

  -- `user`, from the rows that its two queries find
  abbrev from_rows : List OnlineUser → Option ProfileRow → Option ProfileRow → Text
  from_rows online a b =
      if listed a
      then card_or fmt_time now (find (λ u. text_eq u.username n) online) n (hydrated db b)
      else no_such_user n

  of_found :
      (online : List OnlineUser) (o : Option ProfileRow)
      → from_rows online (filtered is_local o) o ≡ card_of online o
  of_found online none = refl
  of_found online (some r) = elim (Bool-cases r.is_remote) [
    | inl remote ↦ rw remote refl
    | inr local ↦ elim (Bool-cases r.finger_optout) [
      | inl out ↦ rw (local, out) refl
      | inr here ↦ rw (local, here) refl
    ]
  ]

  of_shown :
      (online : List OnlineUser) (o : Option ProfileRow)
      → from_rows online (filtered (λ r. is_local r && is_shown r) o) (filtered is_shown o)
        ≡ card_of online o
  of_shown online none = refl
  of_shown online (some r) = elim (Bool-cases r.is_remote) [
    | inl remote ↦ rw remote refl
    | inr local ↦ elim (Bool-cases r.finger_optout) [
      | inl out ↦ rw (local, out) refl
      | inr here ↦ rw (local, here) refl
    ]
  ]

  module _ (h : HasUniqueNames db.users) where
    user-card_of :
        (online : List OnlineUser)
        → user fmt_time now online n db ≡ card_of online (find (named n) db.users)
    user-card_of online =
        ap (λ a. from_rows online a (find (named n) db.users)) (find-filtered n is_local db.users h)
        ∙ of_found online (find (named n) db.users)

    user-redacted :
        (online : List OnlineUser)
        → user fmt_time now online n (redacted db) ≡ card_of online (find (named n) db.users)
    user-redacted online =
        ap₂ (from_rows online)
          (find-delete_where (λ r. named n r && is_local r) is_hidden db.users
            ∙ find_same _ _ (λ r. and_assoc (named n r) (is_local r) (is_shown r)) db.users
            ∙ find-filtered n (λ r. is_local r && is_shown r) db.users h)
          (find-delete_where (named n) is_hidden db.users ∙ find-filtered n is_shown db.users h)
        ∙ of_shown online (find (named n) db.users)

    -- A session under a name that is shown is not among those left out.
    card-without :
        (online : List OnlineUser) (o : Option ProfileRow)
        → find (named n) db.users ≡ o
        → card_of (delete_where (λ u. any (text_eq u.username) (optout_names db)) online) o
          ≡ card_of online o
    card-without online none e = refl
    card-without online (some r) e = elim (Bool-cases (is_hidden r)) [
      | inl hidden ↦ rw hidden refl
      | inr shown ↦
          let here : r.finger_optout ≡ false = ground arith in
          let free = unhidden n db.users r h e here in
          let same =
            find_apart (λ (u : OnlineUser). text_eq u.username n)
              (λ u. any (text_eq u.username) (optout_names db))
              (λ u q. rw (text_eq→eq u.username n q) free) online in
          ap
            (λ u.
              if is_hidden r
              then no_such_user n
              else card_or fmt_time now u n (hydrated db (some r)))
            same
    ]

answer-redacted :
    (fmt_time : ℕ → Text) (now : ℕ) (n : Text) (db : Db) (online : List OnlineUser)
    → HasUniqueNames db.users
    → answer fmt_time now
        (delete_where (λ u. any (text_eq u.username) (optout_names db)) online)
        n
        (redacted db)
      ≡ answer fmt_time now online n db
answer-redacted fmt_time now [] db online h = who_online-redacted now online db
answer-redacted fmt_time now (c ∷ s) db online h =
    user-redacted fmt_time now (c ∷ s) db h
      (delete_where (λ u. any (text_eq u.username) (optout_names db)) online)
    ∙ card-without fmt_time now (c ∷ s) db h online (find (named (c ∷ s)) db.users) refl
    ∙ sym (user-card_of fmt_time now (c ∷ s) db h online)

-- Where names are unique, finger answers every request as if the remote accounts and those that
-- opted out had been deleted, and the sessions under the names of the latter had left.
pub respond-redacted :
    (channels : Channels) (fmt_time : ℕ → Text) (now : ℕ) (p : Presence channels) (request : Text)
    (db : Db)
    → HasUniqueNames db.users
    → respond fmt_time channels now (without channels (optout_names db) p) request (redacted db)
      ≡ respond fmt_time channels now p request db
unfolding respond
respond-redacted channels fmt_time now p request db h =
    ap (λ online. answer fmt_time now online (query request) (redacted db))
      (list-without channels (optout_names db) p)
    ∙ answer-redacted fmt_time now (query request) db (list channels p) h
