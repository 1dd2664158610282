-- ===== src/Boards/Laws/Posting.antt =====
-- Who may post on the boards of src/services/boards.rs.
use bbs_rs.Prelude.{
  ℕ, suc, ◌≤◌, ◌≡◌, refl, ◌⊎◌, inl, inr, true, false, not, ◌&&◌, [], ◌∷◌, ◌++◌, Option, none, some,
  Text, codes, if◌then◌else◌, ◌==◌, ==_iff, leb, leb→le, find, find-In, In, Bool-cases, arith,
}
use bbs_rs.Error.{bind-ok, not_found, Result, ok, err, Result-cases}
use bbs_rs.Accounts.Tables.{User, is_guest, is_admin}
use bbs_rs.Limits.{Limits, enforce_len, role_rank}
use bbs_rs.Boards.{
  Board, can_write, Message, Db, or_not_found, get_board, get_message, board_open, parent_here,
  checks, new_message, post_message,
}

or_not_found-ok : {A : Type 0} (o : Option A) {a : A} → or_not_found o ≡ ok a → o ≡ some a
or_not_found-ok none h = cc
or_not_found-ok (some a) h = cc

-- The message that a reply names stands on the board.
abbrev pub IsReplyHere : ℕ → Db → Option ℕ → Type 0
IsReplyHere board_id db none = Unit
IsReplyHere board_id db (some pid) =
    (m : Message) × In m db.messages × (m.id ≡ pid) × (m.board_id ≡ board_id)

-- What a post may do: be refused and change nothing, or put one message on a board that the
-- author may write to.
abbrev pub Posts : ℕ → User → Text → Text → Option ℕ → ℕ → Db → Result ℕ × Db → Type 0
Posts board_id author subject body parent_id now db (err e, db') = db' ≡ db
Posts board_id author subject body parent_id now db (ok id, db') =
    (is_guest author ≡ false)
    × ((b : Board) × In b db.boards
        × (b.id ≡ board_id)
        × ((b.locked ≡ false) ⊎ (is_admin author ≡ true))
        × (role_rank b.min_write_role ≤ role_rank author.role))
    × IsReplyHere board_id db parent_id
    × (id ≡ db.next_message)
    × (db' ≡ record db {
      messages = db.messages ++ new_message board_id author subject body parent_id now db ∷ [];
      next_message = suc db.next_message;
    })

board_open-ok :
    (author : User) (b : Board) {t : Unit {0}}
    → board_open author b ≡ ok t
    → ((b.locked ≡ false) ⊎ (is_admin author ≡ true))
      × (role_rank b.min_write_role ≤ role_rank author.role)
unfolding can_write
board_open-ok author b h = elim (Bool-cases (b.locked && not (is_admin author))) [
  | inl shut ↦ cc (rw shut at h)
  | inr open_ ↦ elim (Bool-cases (leb (role_rank b.min_write_role) (role_rank author.role))) [
    | inr denied ↦ cc (rw (open_, denied) at h)
    | inl allowed ↦ (
      elim (Bool-cases b.locked) [ inr unlocked ↦ inl unlocked | inl locked ↦ inr (ground arith) ],
      leb→le (role_rank b.min_write_role) (role_rank author.role) allowed,
    )
  ]
]

parent_here-ok :
    (board_id : ℕ) (db : Db) (parent_id : Option ℕ) {t : Unit {0}}
    → parent_here board_id db parent_id ≡ ok t
    → IsReplyHere board_id db parent_id
unfolding get_message
parent_here-ok board_id db none h = tt
parent_here-ok board_id db (some pid) {t} h =
    let (m, found, same) =
      bind-ok (or_not_found (find (λ (m : Message). m.id == pid) db.messages))
        (λ parent. if parent.board_id == board_id then ok tt else err not_found) h in
    let (i, q) =
      find-In (λ (m : Message). m.id == pid) db.messages
        (or_not_found-ok (find (λ (m : Message). m.id == pid) db.messages) found) in
    (
      m,
      i,
      (==_iff m.id pid).0 q,
      elim (Bool-cases (m.board_id == board_id)) [
        | inl here ↦ (==_iff m.board_id board_id).0 here
        | inr elsewhere ↦ cc (rw elsewhere at same)
      ],
    )

-- A post either is refused and changes nothing, or the author is no guest, the board exists and is
-- unlocked (or the author an operator), the author's role reaches the board's, a reply's parent
-- stands on the same board, and exactly that message is added.
pub post_message-Posts :
    (board_id : ℕ) (author : User) (subject body : Text) (parent_id : Option ℕ) (limits : Limits)
    (now : ℕ) (db : Db)
    → Posts board_id author subject body parent_id now db
        (post_message board_id author subject body parent_id limits now db)
unfolding post_message get_board
post_message-Posts board_id author subject body parent_id limits now db =
    elim (Bool-cases (is_guest author)) [
      | inl guest ↦ rw guest refl
      | inr member ↦
          elim (Result-cases (checks board_id author subject body parent_id limits now db)) [
            | inl (e, bad) ↦ rw (member, bad) refl
            | inr (t, good) ↦
                let (_, _, rest₁) =
                  bind-ok (enforce_len (codes "Subject") subject limits.max_subject_chars) _ good in
                let (_, _, rest₂) =
                  bind-ok (enforce_len (codes "Message") body limits.max_body_chars) _ rest₁ in
                let (b, found, rest₃) =
                  bind-ok (or_not_found (find (λ (c : Board). c.id == board_id) db.boards)) _
                    rest₂ in
                let (_, open_, rest₄) = bind-ok (board_open author b) _ rest₃ in
                let (_, reply, _) = bind-ok (parent_here board_id db parent_id) _ rest₄ in
                let (i, q) =
                  find-In (λ (c : Board). c.id == board_id) db.boards
                    (or_not_found-ok (find (λ (c : Board). c.id == board_id) db.boards) found) in
                let (lock_ok, role_ok) = board_open-ok author b open_ in
                rw (member, good)
                  (
                    member,
                    (b, i, (==_iff b.id board_id).0 q, lock_ok, role_ok),
                    parent_here-ok board_id db parent_id reply,
                    refl,
                    refl,
                  )
          ]
    ]
