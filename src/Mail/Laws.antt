-- ===== src/Mail/Laws.antt =====
-- Who reaches whose mailbox in src/services/mail.rs.
use bbs_rs.Prelude.{
  ℕ, suc, ◌≡◌, ◌≢◌, refl, sym, ap, ◌∙◌, ◌⊎◌, inl, inr, true, false, not, ◌&&◌, [], ◌∷◌, ◌++◌,
  Option, none, some, Text, text_eq→eq, ◌==◌, ==_iff, is_some, find, find-In, In,
  In-update_where_kept, In-delete_where_kept, Bool-cases, Option-cases, arith,
}
use bbs_rs.Error.{bind-ok, Result, ok, err, Result-cases}
use bbs_rs.Accounts.Tables.{User, is_guest, is_admin, named}
use bbs_rs.Limits.{Limits}
use bbs_rs.Community.Blocks.{is_blocked}
use bbs_rs.Mail.{
  Mail, Post, is_to, read_mail, delete_mail, check_sender, new_mail, local_only, heard, recipient,
  send_mail,
}

-- What sending may do: be refused and change nothing, or put one mail in the box of a local user
-- of that name who has not blocked the sender.
abbrev pub Sends : User → Text → Text → Text → ℕ → Post → Result ℕ × Post → Type 0
Sends from to_username subject body now post (err e, post') = post' ≡ post
Sends from to_username subject body now post (ok id, post') =
    (is_guest from ≡ false)
    × ((to : User) × In to post.users
        × (to.username ≡ to_username)
        × (to.is_remote ≡ false)
        × ((is_admin from ≡ true) ⊎ (is_blocked to.id from.id post.blocks ≡ false))
        × (id ≡ post.next_id)
        × (post' ≡ record post {
          rows = post.rows ++ new_mail from to subject body now post ∷ [];
          next_id = suc post.next_id;
        }))

local_only-ok :
    (o : Option User) {u : User} → local_only o ≡ ok u → (o ≡ some u) × (u.is_remote ≡ false)
local_only-ok none h = cc
local_only-ok (some v) {u} h = elim (Bool-cases v.is_remote) [
  | inl remote ↦ cc (rw remote at h)
  | inr local ↦ let same : v ≡ u = cc (rw local at h) in (ap some same, rw (← same) local)
]

heard-ok :
    (from : User) (post : Post) (to : User) {u : User}
    → heard from post to ≡ ok u
    → (to ≡ u) × ((is_admin from ≡ true) ⊎ (is_blocked to.id from.id post.blocks ≡ false))
heard-ok from post to {u} h =
    elim (Bool-cases (not (is_admin from) && is_blocked to.id from.id post.blocks)) [
      | inl shut ↦ cc (rw shut at h)
      | inr open_ ↦ (
        cc (rw open_ at h),
        elim (Bool-cases (is_admin from)) [
          | inl admin ↦ inl admin
          | inr plain ↦ inr (ground arith)
        ],
      )
    ]

check_sender-ok :
    (from : User) (subject body : Text) (limits : Limits) (now : ℕ) (post : Post) {t : Unit {0}}
    → check_sender from subject body limits now post ≡ ok t
    → is_guest from ≡ false
unfolding check_sender
check_sender-ok from subject body limits now post h = elim (Bool-cases (is_guest from)) [
  | inl guest ↦ cc (rw guest at h)
  | inr member ↦ member
]

-- Sending either is refused and changes nothing, or the sender is no guest, the recipient is a
-- local user of that name who has not blocked the sender (an operator is heard all the same), and
-- exactly that mail is put in the recipient's box.
pub send_mail-Sends :
    (from : User) (to_username subject body : Text) (limits : Limits) (now : ℕ) (post : Post)
    → Sends from to_username subject body now post
        (send_mail from to_username subject body limits now post)
unfolding send_mail
send_mail-Sends from to_username subject body limits now post =
    elim (Result-cases (recipient from to_username subject body limits now post)) [
      | inl (e, bad) ↦ rw bad refl
      | inr (to, good) ↦
          let (_, sender, rest) = bind-ok (check_sender from subject body limits now post) _ good in
          let (v, local, last) =
            bind-ok (local_only (find (named to_username) post.users)) (heard from post) rest in
          let (found, here) = local_only-ok (find (named to_username) post.users) local in
          let (i, q) = find-In (named to_username) post.users found in
          let (same, listened) = heard-ok from post v last in
          rw (good, ← same)
            (
              check_sender-ok from subject body limits now post sender,
              (v, i, text_eq→eq v.username to_username q, here, listened, refl, refl),
            )
    ]

-- Where no id stands twice, reading and deleting reach only the user's own box: every mail to
-- another user stays as it was.
pub read_mail-delete_mail :
    (now id user_id : ℕ) (post : Post)
    → ((a b : Mail) → In a post.rows → In b post.rows → a.id ≡ b.id → a ≡ b)
    → (m : Mail) → In m post.rows
    → m.to_id ≢ user_id
    → In m (read_mail now id user_id post).1.rows × In m (delete_mail id user_id post).1.rows
unfolding read_mail delete_mail
read_mail-delete_mail now id user_id post unique m i other =
    (reads, In-delete_where_kept (is_to id user_id) post.rows m i not_mine)
  where
    not_mine : is_to id user_id m ≡ false
    not_mine = elim (Bool-cases (is_to id user_id m)) [
      | inl mine ↦ absurd (other (ground arith))
      | inr theirs ↦ theirs
    ]

    reads : In m (read_mail now id user_id post).1.rows
    reads = elim (Option-cases (find (is_to id user_id) post.rows)) [
      | inl missing ↦ rw missing i
      | inr (k, found) ↦ elim (Bool-cases (is_some k.read_at)) [
        | inl read_ ↦ rw (found, read_) i
        | inr unread ↦
            let (j, q) = find-In (is_to id user_id) post.rows found in
            let apart : (m.id == id) ≡ false = elim (Bool-cases (m.id == id)) [
              | inr differs ↦ differs
              | inl same ↦
                  let k_id : k.id ≡ id = ground arith in
                  let k_to : k.to_id ≡ user_id = ground arith in
                  let one : m ≡ k = unique m k i j ((==_iff m.id id).0 same ∙ sym k_id) in
                  absurd (other (ap (λ (x : Mail). x.to_id) one ∙ k_to))
            ] in
            rw (found, unread)
              (In-update_where_kept (λ (x : Mail). x.id == id)
                (λ x. record x { read_at = some now }) post.rows m i apart)
      ]
    ]
