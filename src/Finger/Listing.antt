-- ===== src/Finger/Listing.antt =====
-- src/services/presence.rs and finger.rs: to drop sessions by name from the registry and from the
-- sorted list of its users is the same.
use bbs_rs.Prelude.{
  ℕ, ◌≡◌, refl, sym, ap, ◌∙◌, inl, inr, Bool, true, false, List, [], ◌∷◌, map, all, any, Text,
  text_eq, if◌then◌else◌, delete_where, Bool-cases, arith,
}
use bbs_rs.Presence.{
  Channels, Session, Presence, OnlineUser, text_leb, insert_online, sort_online, online_user, list,
}
use bbs_rs.Presence.Laws.Roster.{leb_total}
use bbs_rs.Finger.{who_line, who_lines}

leb_trans : (s t u : Text) → text_leb s t ≡ true → text_leb t u ≡ true → text_leb s u ≡ true
leb_trans [] t u h k = refl
leb_trans (a ∷ s) [] u h k = cc
leb_trans (a ∷ s) (b ∷ t) [] h k = cc
leb_trans (a ∷ s) (b ∷ t) (c ∷ u) h k = ground (arith, leb_trans s t u)

abbrev Below : OnlineUser → List OnlineUser → Type 0
Below u vs = all (λ v. text_leb u.username v.username) vs ≡ true

abbrev IsOrdered : List OnlineUser → Type 0
IsOrdered [] = Unit
IsOrdered (u ∷ us) = Below u us × IsOrdered us

Below-further :
    (u v : OnlineUser) (vs : List OnlineUser)
    → text_leb u.username v.username ≡ true
    → Below v vs
    → Below u vs
Below-further u v [] h k = refl
Below-further u v (w ∷ vs) h k =
    let here : text_leb v.username w.username ≡ true = ground arith in
    let there : Below v vs = ground arith in
    let first = leb_trans u.username v.username w.username h here in
    let rest = Below-further u v vs h there in ground (arith, first, rest)

Below-insert_online :
    (u v : OnlineUser) (vs : List OnlineUser)
    → text_leb u.username v.username ≡ true
    → Below u vs
    → Below u (insert_online v vs)
Below-insert_online u v [] h k = rw h refl
Below-insert_online u v (w ∷ vs) h k = elim (Bool-cases (text_leb v.username w.username)) [
  | inl before ↦ rw (before, h) k
  | inr after ↦
      let here : text_leb u.username w.username ≡ true = ground arith in
      let there : Below u vs = ground arith in rw (after, here) (Below-insert_online u v vs h there)
]

insert_online-IsOrdered :
    (u : OnlineUser) (vs : List OnlineUser) → IsOrdered vs → IsOrdered (insert_online u vs)
insert_online-IsOrdered u [] h = (refl, tt)
insert_online-IsOrdered u (v ∷ vs) (k, h) = elim (Bool-cases (text_leb u.username v.username)) [
  | inl before ↦ rw before ((rw before (Below-further u v vs before k)), (k, h))
  | inr after ↦
      let turned = leb_total u.username v.username after in
      rw after (Below-insert_online v u vs turned k, insert_online-IsOrdered u vs h)
]

sort_online-IsOrdered : (us : List OnlineUser) → IsOrdered (sort_online us)
sort_online-IsOrdered [] = tt
sort_online-IsOrdered (u ∷ us) =
    insert_online-IsOrdered u (sort_online us) (sort_online-IsOrdered us)

-- To drop by a test, from a list in order
module _ (q : OnlineUser → Bool) where
  Below-delete_where :
      (u : OnlineUser) (vs : List OnlineUser) → Below u vs → Below u (delete_where q vs)
  Below-delete_where u [] h = refl
  Below-delete_where u (v ∷ vs) h =
      let here : text_leb u.username v.username ≡ true = ground arith in
      let there : Below u vs = ground arith in
      let rest = Below-delete_where u vs there in
      elim (Bool-cases (q v)) [ inl dropped ↦ rw dropped rest | inr kept ↦ rw (kept, here) rest ]

  at_front : (u : OnlineUser) (vs : List OnlineUser) → Below u vs → insert_online u vs ≡ u ∷ vs
  at_front u [] h = refl
  at_front u (v ∷ vs) h =
      let here : text_leb u.username v.username ≡ true = ground arith in rw here refl

  insert_dropped :
      (u : OnlineUser) (vs : List OnlineUser)
      → q u ≡ true
      → delete_where q (insert_online u vs) ≡ delete_where q vs
  insert_dropped u [] e = rw e refl
  insert_dropped u (v ∷ vs) e = elim (Bool-cases (text_leb u.username v.username)) [
    | inl before ↦ rw (before, e) refl
    | inr after ↦ rw after (ap (λ r. if q v then r else v ∷ r) (insert_dropped u vs e))
  ]

  insert_kept :
      (u : OnlineUser) (vs : List OnlineUser)
      → q u ≡ false
      → IsOrdered vs
      → delete_where q (insert_online u vs) ≡ insert_online u (delete_where q vs)
  insert_kept u [] e h = rw e refl
  insert_kept u (v ∷ vs) e (k, h) = elim (Bool-cases (text_leb u.username v.username)) [
    | inl before ↦
        let all_above : Below u (v ∷ vs) = rw before (Below-further u v vs before k) in
        let at_head =
          at_front u (delete_where q (v ∷ vs)) (Below-delete_where u (v ∷ vs) all_above) in
        rw (before, e) (sym at_head)
    | inr after ↦
        let rest = insert_kept u vs e h in
        elim (Bool-cases (q v)) [
          | inl dropped ↦ rw (after, dropped) rest
          | inr kept ↦ rw (after, kept, after) (ap (v ∷◌) rest)
        ]
  ]

  pub sort_online-delete_where :
      (us : List OnlineUser) → sort_online (delete_where q us) ≡ delete_where q (sort_online us)
  sort_online-delete_where [] = refl
  sort_online-delete_where (u ∷ us) =
      let rest = sort_online-delete_where us in
      elim (Bool-cases (q u)) [
        | inl dropped ↦ rw dropped (rest ∙ sym (insert_dropped u (sort_online us) dropped))
        | inr kept ↦ rw kept (
            ap (insert_online u) rest
            ∙ sym (insert_kept u (sort_online us) kept (sort_online-IsOrdered us)))
      ]

-- The lines of the users that are hidden are those that are left out.
pub who_lines-delete_where :
    (now : ℕ) (hidden : List Text) (us : List OnlineUser)
    → who_lines now [] (delete_where (λ u. any (text_eq u.username) hidden) us)
      ≡ who_lines now hidden us
who_lines-delete_where now hidden [] = refl
who_lines-delete_where now hidden (u ∷ us) = elim (Bool-cases (any (text_eq u.username) hidden)) [
  | inl dropped ↦ rw dropped (who_lines-delete_where now hidden us)
  | inr kept ↦ rw kept (ap (who_line now u ∷◌) (who_lines-delete_where now hidden us))
]

module _ (channels : Channels) where
  -- The registry without the sessions under some names
  abbrev pub without : List Text → Presence channels → Presence channels
  without names p = record p { inner = delete_where (λ s. any (text_eq s.username) names) p.inner }

  map-without :
      (names : List Text) (ss : List (Session channels))
      → map (online_user channels) (delete_where (λ s. any (text_eq s.username) names) ss)
        ≡ delete_where (λ u. any (text_eq u.username) names) (map (online_user channels) ss)
  map-without names [] = refl
  map-without names (s ∷ ss) = elim (Bool-cases (any (text_eq s.username) names)) [
    | inl dropped ↦ rw dropped (map-without names ss)
    | inr kept ↦ rw kept (ap (online_user channels s ∷◌) (map-without names ss))
  ]

  pub list-without :
      (names : List Text) (p : Presence channels)
      → list channels (without names p)
        ≡ delete_where (λ u. any (text_eq u.username) names) (list channels p)
  list-without names p =
      ap sort_online (map-without names p.inner)
      ∙ sort_online-delete_where (λ u. any (text_eq u.username) names)
          (map (online_user channels) p.inner)
