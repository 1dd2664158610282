-- ===== src/Boards/Laws/Unread.antt =====
-- The marks of what a user has seen on the boards of src/services/boards.rs.
use bbs_rs.Prelude.{
  ℕ, zero, suc, ◌+◌, max, ◌≡◌, ◌≢◌, refl, sym, ap, ◌∙◌, inl, inr, Bool, true, false, if◌then◌else◌,
  count_where, ◌&&◌, List, [], ◌∷◌, Option, none, some, ◌==◌, ==_iff, find, Bool-cases, arith,
}
use bbs_rs.Accounts.Admin.{select}
use bbs_rs.Boards.{Message, Seen, Db, last_seen, upsert_seen, mark_board_seen}
use bbs_rs.Boards.Unread.{newer, is_unread, count_one, group_counts, unread_counts, count_of}

abbrev is_mark : ℕ → ℕ → Seen → Bool
is_mark user_id board_id s = s.user_id == user_id && s.board_id == board_id

abbrev seen_at : Option Seen → ℕ
seen_at none = 0
seen_at (some s) = s.last_seen_at

marked :
    (n : Seen) (ss : List Seen)
    → seen_at (find (is_mark n.user_id n.board_id) (upsert_seen n ss))
      ≡ max (seen_at (find (is_mark n.user_id n.board_id) ss)) n.last_seen_at
marked n [] =
    rw ((==_iff n.user_id n.user_id).1 refl, (==_iff n.board_id n.board_id).1 refl) (omega arith)
marked n (s ∷ ss) = elim (Bool-cases (is_mark n.user_id n.board_id s)) [
  | inl hit ↦ rw (hit, hit) refl
  | inr miss ↦ rw (miss, miss) (marked n ss)
]

unmarked :
    (n : Seen) (u b : ℕ)
    → ¬ ((u ≡ n.user_id) × (b ≡ n.board_id))
    → (ss : List Seen)
    → seen_at (find (is_mark u b) (upsert_seen n ss)) ≡ seen_at (find (is_mark u b) ss)
unmarked n u b d [] = elim (Bool-cases (is_mark u b n)) [
  | inl hit ↦ absurd (d (ground arith, ground arith))
  | inr miss ↦ rw miss refl
]
unmarked n u b d (s ∷ ss) = elim (Bool-cases (is_mark n.user_id n.board_id s)) [
  | inl hit ↦
      let other : is_mark u b s ≡ false = elim (Bool-cases (is_mark u b s)) [
        | inl both ↦ absurd (d (ground arith, ground arith))
        | inr other ↦ other
      ] in
      rw (hit, other) refl
  | inr miss ↦ elim (Bool-cases (is_mark u b s)) [
    | inl here ↦ rw (miss, here) refl
    | inr there ↦ rw (miss, there) (unmarked n u b d ss)
  ]
]

-- Marking a board as seen moves the user's mark there forward, never back, and no other mark.
pub mark_board_seen-last_seen :
    (user_id board_id at : ℕ) (db : Db)
    → let db' = mark_board_seen user_id board_id at db in
      (last_seen user_id board_id db' ≡ max (last_seen user_id board_id db) at)
      × ((u b : ℕ) → ¬ ((u ≡ user_id) × (b ≡ board_id)) → last_seen u b db' ≡ last_seen u b db)
unfolding mark_board_seen last_seen
mark_board_seen-last_seen user_id board_id at db =
    let n : Seen = record { user_id = user_id; board_id = board_id; last_seen_at = at } in
    (marked n db.seen, λ u b d. unmarked n u b d db.seen)

-- A board without unread messages is not in the map.
abbrev pub unless_zero : ℕ → Option ℕ
unless_zero zero = none
unless_zero (suc n) = some (suc n)

abbrev one_more : Option ℕ → ℕ
one_more none = 1
one_more (some n) = suc n

count_of-count_one :
    (b c : ℕ) (r : List (ℕ × ℕ))
    → count_of b (count_one c r) ≡ (if c == b then some (one_more (count_of b r)) else count_of b r)
count_of-count_one b c [] = refl
count_of-count_one b c ((a, n) ∷ r) =
    let rest = count_of-count_one b c r in
    elim (Bool-cases (a == c)) [
      | inl same ↦ elim (Bool-cases (c == b)) [
        | inl here ↦ let both : (a == b) ≡ true = ground arith in rw (same, here, both) refl
        | inr there ↦ let both : (a == b) ≡ false = ground arith in rw (same, there, both) refl
      ]
      | inr apart ↦ elim (Bool-cases (a == b)) [
        | inl found ↦ let other : (c == b) ≡ false = ground arith in rw (apart, found, other) refl
        | inr later ↦ rw (apart, later) rest
      ]
    ]

one_more-unless_zero : (n : ℕ) → some (one_more (unless_zero n)) ≡ unless_zero (1 + n)
one_more-unless_zero zero = refl
one_more-unless_zero (suc n) = let e : suc (suc n) ≡ 1 + suc n = omega arith in ap unless_zero e

unless_zero_add : (n : ℕ) → unless_zero n ≡ unless_zero (0 + n)
unless_zero_add n = let e : n ≡ 0 + n = omega arith in ap unless_zero e

count_of-group_counts :
    (b : ℕ) (q : Message → Bool) (ms : List Message)
    → count_of b (group_counts (select q ms))
      ≡ unless_zero (count_where (λ m. m.board_id == b && q m) ms)
count_of-group_counts b q [] = refl
count_of-group_counts b q (m ∷ ms) =
    let rest = count_of-group_counts b q ms in
    let skipped = rest ∙ unless_zero_add (count_where (λ m. m.board_id == b && q m) ms) in
    let step = count_of-count_one b m.board_id (group_counts (select q ms)) in
    elim (Bool-cases (q m)) [
      | inl unread ↦ elim (Bool-cases (m.board_id == b)) [
        | inl here ↦
            rw (unread, here)
              ((rw here at step)
                ∙ ap (λ o. some (one_more o)) rest
                ∙ one_more-unless_zero (count_where (λ m. m.board_id == b && q m) ms))
        | inr there ↦ rw (unread, there) ((rw there at step) ∙ skipped)
      ]
      | inr seen ↦ elim (Bool-cases (m.board_id == b)) [
        | inl here ↦ rw (seen, here) skipped
        | inr there ↦ rw (seen, there) skipped
      ]
    ]

count_where_same :
    (p q : Message → Bool)
    → ((m : Message) → p m ≡ q m)
    → (ms : List Message) → count_where p ms ≡ count_where q ms
count_where_same p q same [] = refl
count_where_same p q same (m ∷ ms) = rw (same m, count_where_same p q same ms) refl

-- The mark of a user on a board after `mark_board_seen`
abbrev pub mark_after : ℕ → ℕ → ℕ → Db → ℕ → ℕ
mark_after user_id board_id at db b =
    if b == board_id then max (last_seen user_id b db) at else last_seen user_id b db

last_seen-mark_after :
    (user_id board_id at : ℕ) (db : Db) (b : ℕ)
    → last_seen user_id b (mark_board_seen user_id board_id at db)
      ≡ mark_after user_id board_id at db b
last_seen-mark_after user_id board_id at db b =
    let (forward, others) = mark_board_seen-last_seen user_id board_id at db in
    elim (Bool-cases (b == board_id)) [
      | inl same ↦ let e : b ≡ board_id = ground arith in rw (same, e) forward
      | inr apart ↦ rw apart (others user_id b (λ both. absurd (ground (arith, both.1))))
    ]

module _ (user_id : ℕ) (db : Db) (b : ℕ) where
  -- A message on the board is unread as the mark there says.
  unread_there :
      (mark : ℕ)
      → last_seen user_id b db ≡ mark
      → (m : Message)
      → (m.board_id == b && is_unread user_id db m) ≡ (m.board_id == b && newer user_id mark m)
  unread_there mark e m = elim (Bool-cases (m.board_id == b)) [
    | inl here ↦
        let there : m.board_id ≡ b = ground arith in
        rw here (ap (λ t. newer user_id t m) (ap (λ c. last_seen user_id c db) there ∙ e))
    | inr apart ↦ rw apart refl
  ]

  count_of-unread_counts :
      (mark : ℕ)
      → last_seen user_id b db ≡ mark
      → count_of b (unread_counts user_id db)
        ≡ unless_zero (count_where (λ m. m.board_id == b && newer user_id mark m) db.messages)
  unfolding unread_counts
  count_of-unread_counts mark e =
      count_of-group_counts b (is_unread user_id db) db.messages
      ∙ ap unless_zero (count_where_same _ _ (unread_there mark e) db.messages)

-- After a board is marked as seen, the count of every board is that of the messages on it which
-- others wrote after the user's mark there: the mark moved forward on the board itself, and as it
-- was on any other. A board without such messages has no count. The counts of other users stay.
pub unread_counts-mark_board_seen :
    (user_id board_id at : ℕ) (db : Db)
    → let db' = mark_board_seen user_id board_id at db in
      ((b : ℕ)
        → count_of b (unread_counts user_id db')
          ≡ unless_zero (
              count_where
                (λ m. m.board_id == b && newer user_id (mark_after user_id board_id at db b) m)
                db.messages))
      × ((u b : ℕ)
          → u ≢ user_id
          → count_of b (unread_counts u db') ≡ count_of b (unread_counts u db))
unfolding mark_board_seen
unread_counts-mark_board_seen user_id board_id at db =
    let db' = mark_board_seen user_id board_id at db in
    (
      λ b.
          count_of-unread_counts user_id db' b (mark_after user_id board_id at db b)
            (last_seen-mark_after user_id board_id at db b),
      λ u b other.
          let same =
            (mark_board_seen-last_seen user_id board_id at db).1 u b (λ both. other both.0) in
          count_of-unread_counts u db' b (last_seen u b db) same
          ∙ sym (count_of-unread_counts u db b (last_seen u b db) refl),
    )
