-- ===== src/Boards/Laws/Rights.antt =====
-- What an author's own rights reach on the boards of src/services/boards.rs, and what a lock stops.
use bbs_rs.Prelude.{
  ℕ, ◌≡◌, refl, sym, ap, ◌∙◌, ◌⊎◌, inl, inr, true, false, ◌&&◌, List, [], ◌∷◌, Option, some, Text,
  codes, any, ◌==◌, ==_iff, In, In-update_where_kept, In-delete_where_kept, update_where,
  Bool-cases, arith,
}
use bbs_rs.Error.{AppError, Result, ok, err, ◌>>◌, Result-cases}
use bbs_rs.Accounts.Tables.{User, is_admin}
use bbs_rs.Limits.{Limits, enforce_len}
use bbs_rs.Boards.{
  Board, Message, Db, post_message, is_own, edit_own_message, delete_own_message, set_locked,
}
use bbs_rs.Boards.Laws.Posting.{Posts, post_message-Posts}

-- The message is the author's, has the id, and stands on no locked board.
abbrev pub IsOwn : ℕ → User → Db → Message → Type 0
IsOwn id author db m =
    (m.id ≡ id)
    × (m.author_id ≡ author.id)
    × ((b : Board) → In b db.boards → b.id ≡ m.board_id → b.locked ≡ false)

not_locked :
    (bs : List Board) (m : Message)
    → any (λ (b : Board). b.locked && b.id == m.board_id) bs ≡ false
    → (b : Board) → In b bs
    → b.id ≡ m.board_id
    → b.locked ≡ false
not_locked [] m h b i e = absurd i
not_locked (c ∷ bs) m h b (inl same) e = elim (Bool-cases c.locked) [
  | inr open_ ↦ rw same open_
  | inl shut ↦
      let here : (c.id == m.board_id) ≡ true =
        (==_iff c.id m.board_id).1 (ap (λ (x : Board). x.id) (sym same) ∙ e) in
      cc (rw (shut, here) at h)
]
not_locked (c ∷ bs) m h b (inr i) e = not_locked bs m (ground arith) b i e

is_own-IsOwn :
    (id : ℕ) (author : User) (db : Db) (m : Message)
    → is_own id author db m ≡ true
    → IsOwn id author db m
is_own-IsOwn id author db m h = (ground arith, ground arith, not_locked db.boards m (ground arith))

IsOwn-or_not :
    (id : ℕ) (author : User) (db : Db) (m : Message)
    → (is_own id author db m ≡ false) ⊎ IsOwn id author db m
IsOwn-or_not id author db m = elim (Bool-cases (is_own id author db m)) [
  | inl mine ↦ inr (is_own-IsOwn id author db m mine)
  | inr other ↦ inl other
]

-- Every message is still there as it was, but perhaps the author's own.
abbrev pub KeepsOthers : ℕ → User → Db → Db → Type 0
KeepsOthers id author db db' =
    (m : Message) → In m db.messages → In m db'.messages ⊎ IsOwn id author db m

-- Neither editing nor deleting one's own message touches any message that is not the author's
-- own under that id, or that stands on a locked board.
pub edit_own_message-KeepsOthers :
    (id : ℕ) (author : User) (subject body : Text) (limits : Limits) (now : ℕ) (db : Db)
    → KeepsOthers id author db (edit_own_message id author subject body limits now db).1
      × KeepsOthers id author db (delete_own_message id author db).1
unfolding edit_own_message delete_own_message
edit_own_message-KeepsOthers id author subject body limits now db = (edits, deletes)
  where
    change : Message → Message
    change m = record m { subject = subject; body = body; edited_at = some now }

    edits : KeepsOthers id author db (edit_own_message id author subject body limits now db).1
    edits m i =
        elim (Result-cases (
          enforce_len (codes "Subject") subject limits.max_subject_chars
          >> enforce_len (codes "Message") body limits.max_body_chars)) [
            | inl (e, long) ↦ rw long (inl i)
            | inr (t, fits) ↦ elim (IsOwn-or_not id author db m) [
              | inr mine ↦ inr mine
              | inl other ↦
                  rw fits
                    (inl (In-update_where_kept (is_own id author db) change db.messages m i other))
            ]
          ]

    deletes : KeepsOthers id author db (delete_own_message id author db).1
    deletes m i = elim (IsOwn-or_not id author db m) [
      | inr mine ↦ inr mine
      | inl other ↦ inl (In-delete_where_kept (is_own id author db) db.messages m i other)
    ]

locked_all :
    (board_id : ℕ) (bs : List Board) (b : Board)
    → In b (update_where (λ (c : Board). c.id == board_id) (λ c. record c { locked = true }) bs)
    → b.id ≡ board_id
    → b.locked ≡ true
locked_all board_id [] b i e = absurd i
locked_all board_id (c ∷ bs) b (inl same) e = elim (Bool-cases (c.id == board_id)) [
  | inl hit ↦ rw (rw hit at same) refl
  | inr miss ↦
      let same' : b ≡ c = rw miss at same in
      let e' : (c.id == board_id) ≡ true =
        (==_iff c.id board_id).1 (ap (λ (x : Board). x.id) (sym same') ∙ e) in
      cc (miss, e')
]
locked_all board_id (c ∷ bs) b (inr i) e = locked_all board_id bs b i e

still_there :
    (board_id : ℕ) (bs : List Board) (b : Board)
    → In b bs
    → b.id ≡ board_id
    → (c : Board) × In c
        (update_where (λ (d : Board). d.id == board_id) (λ d. record d { locked = true }) bs)
      × (c.id ≡ board_id)
still_there board_id [] b i e = absurd i
still_there board_id (d ∷ bs) b (inl same) e =
    let hit : (d.id == board_id) ≡ true =
      (==_iff d.id board_id).1 (ap (λ (x : Board). x.id) (sym same) ∙ e) in
    (record d { locked = true }, rw hit (inl refl), (==_iff d.id board_id).0 hit)
still_there board_id (d ∷ bs) b (inr i) e =
    let (c, j, q) = still_there board_id bs b i e in (c, inr j, q)

-- Once a board is locked, no member who is not an operator can post on it, and no author, whoever
-- it is, can edit or delete a message that stands on it.
pub set_locked-post_message :
    (board_id : ℕ) (b : Board) (id : ℕ) (author : User) (subject body : Text) (parent_id : Option ℕ)
    (limits : Limits) (now : ℕ) (db : Db)
    → In b db.boards
    → b.id ≡ board_id
    → let db' = set_locked board_id true db in
      (is_admin author ≡ false
        → (e : AppError) × (post_message board_id author subject body parent_id limits now db'
            ≡ (err e, db')))
      × ((m : Message)
          → In m db'.messages
          → m.board_id ≡ board_id
          → In m (edit_own_message id author subject body limits now db').1.messages
            × In m (delete_own_message id author db').1.messages)
unfolding set_locked
set_locked-post_message board_id b id author subject body parent_id limits now db there e =
    (refused, frozen)
  where
    db' : Db
    db' = set_locked board_id true db

    refused :
        is_admin author ≡ false
        → (x : AppError) × (post_message board_id author subject body parent_id limits now db'
            ≡ (err x, db'))
    refused plain =
        verdict (post_message board_id author subject body parent_id limits now db')
          (post_message-Posts board_id author subject body parent_id limits now db')
      where
        verdict :
            (r : Result ℕ × Db)
            → Posts board_id author subject body parent_id now db' r
            → (x : AppError) × (r ≡ (err x, db'))
        verdict (err x, d) same = (x, ap (λ y. (err x, y)) same)
        verdict (ok n, d) (_, (c, i, q, open_, _), _, _, _) =
            let shut = locked_all board_id db.boards c i q in
            absurd (elim open_ [ inl unlocked ↦ cc | inr admin ↦ cc ])

    not_own : (m : Message) → m.board_id ≡ board_id → ¬ IsOwn id author db' m
    not_own m here (_, _, unlocked) =
        let (c, i, q) = still_there board_id db.boards b there e in
        cc (unlocked c i (q ∙ sym here), locked_all board_id db.boards c i q)

    frozen :
        (m : Message)
        → In m db'.messages
        → m.board_id ≡ board_id
        → In m (edit_own_message id author subject body limits now db').1.messages
          × In m (delete_own_message id author db').1.messages
    frozen m i here =
        let (edits, deletes) = edit_own_message-KeepsOthers id author subject body limits now db' in
        (
          elim (edits m i) [ inl kept ↦ kept | inr mine ↦ absurd (not_own m here mine) ],
          elim (deletes m i) [ inl kept ↦ kept | inr mine ↦ absurd (not_own m here mine) ],
        )
