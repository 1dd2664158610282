-- ===== src/Boards/Unread.antt =====
-- src/services/boards.rs: `unread_counts`. The map is a list of boards, each with its count, and
-- the join with the marks is `last_seen`, since a user has at most one mark on a board.
use bbs_rs.Prelude.{
  ℕ, suc, Bool, not, ◌&&◌, List, [], ◌∷◌, Option, none, some, if◌then◌else◌, ◌==◌, ltb,
}
use bbs_rs.Accounts.Admin.{select}
use bbs_rs.Boards.{Message, Db, last_seen}

-- The `WHERE` clause, for a mark
abbrev pub newer : ℕ → ℕ → Message → Bool
newer user_id mark m = not (m.author_id == user_id) && ltb mark m.created_at

abbrev pub is_unread : ℕ → Db → Message → Bool
is_unread user_id db m = newer user_id (last_seen user_id m.board_id db) m

-- `GROUP BY`, with `COUNT(*)`
abbrev pub count_one : ℕ → List (ℕ × ℕ) → List (ℕ × ℕ)
count_one board_id [] = (board_id, 1) ∷ []
count_one board_id ((b, n) ∷ rest) =
    if b == board_id then (b, suc n) ∷ rest else (b, n) ∷ count_one board_id rest

abbrev pub group_counts : List Message → List (ℕ × ℕ)
group_counts [] = []
group_counts (m ∷ ms) = count_one m.board_id (group_counts ms)

unfoldable pub unread_counts : ℕ → Db → List (ℕ × ℕ)
unread_counts user_id db = group_counts (select (is_unread user_id db) db.messages)

-- `HashMap::get`
abbrev pub count_of : ℕ → List (ℕ × ℕ) → Option ℕ
count_of board_id [] = none
count_of board_id ((b, n) ∷ rest) = if b == board_id then some n else count_of board_id rest
