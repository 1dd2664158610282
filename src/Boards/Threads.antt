-- ===== src/Boards/Threads.antt =====
-- src/services/boards.rs: `list_thread`, a board's messages as threads of replies. The map from a
-- parent to its children is the list of the messages not placed yet: the entry of a parent is those
-- of them that answer it, in order, and to remove the entry is to delete them. The stack stands
-- with its top first.
use bbs_rs.Prelude.{
  ℕ, zero, suc, ◌+◌, ◌%◌, Bool, false, not, List, [], ◌∷◌, ◌++◌, map, reverse, Option, none, some,
  ◌>>=◌, any, length, if◌then◌else◌, ◌==◌, leb, delete_where, is_some,
}
use bbs_rs.Accounts.Admin.{select}
use bbs_rs.Boards.{Message, Db}

pub record ThreadItem : Type 0 where
  pub message : Message
  pub depth : ℕ

-- `ORDER BY pinned DESC, id DESC`; the messages stand in the order of their ids.
unfoldable pub list_messages : ℕ → Db → List Message
list_messages board_id db =
    let newest = reverse (select (λ m. m.board_id == board_id) db.messages) in
    select (λ m. m.pinned) newest ++ select (λ m. not m.pinned) newest

-- The parent, if it is among the messages
abbrev pub effective_parent : List Message → Option ℕ → Option ℕ
effective_parent all none = none
effective_parent all (some pid) = if any (λ m. m.id == pid) all then some pid else none

abbrev pub answers : ℕ → Option ℕ → Bool
answers id none = false
answers id (some pid) = pid == id

abbrev pub is_root : List Message → Message → Bool
is_root all m = not (is_some (effective_parent all m.parent_id))

abbrev pub is_child : List Message → ℕ → Message → Bool
is_child all id m = answers id (effective_parent all m.parent_id)

-- `sort_by_key` on the ids, which is stable
abbrev pub insert_by_id : Message → List Message → List Message
insert_by_id m [] = m ∷ []
insert_by_id m (k ∷ ks) =
    let rest = insert_by_id m ks in if leb m.id k.id then m ∷ k ∷ ks else k ∷ rest

abbrev pub sort_by_id : List Message → List Message
sort_by_id [] = []
sort_by_id (m ∷ ms) = insert_by_id m (sort_by_id ms)

abbrev pub item : ℕ → Message → ThreadItem
item depth m = record { message = m; depth = depth }

-- The depth is a 16-bit number.
abbrev pub below : ℕ → ℕ
below depth = (depth + 1) % 65536

pub record Walk : Type 0 where
  pub stack : List ThreadItem
  pub children : List Message
  pub order : List ThreadItem

-- One round of the walk, at the top of the stack: the item is placed and its replies are pushed,
-- the oldest on top.
abbrev pub visit : List Message → ThreadItem → List ThreadItem → Walk → Walk
visit all i stack w =
    let kids = sort_by_id (select (is_child all i.message.id) w.children) in
    record {
      stack = map (item (below i.depth)) kids ++ stack;
      children = delete_where (is_child all i.message.id) w.children;
      order = w.order ++ i ∷ [];
    }

-- `none` is out of fuel.
unfoldable pub walk : List Message → ℕ → Walk → Option Walk
walk all zero w = none
walk all (suc f) w = elim w.stack [ [] ↦ some w | i ∷ stack ↦ walk all f (visit all i stack w) ]

abbrev pub first_walk : List Message → Walk
first_walk all = record {
  stack = map (item 0) (select (is_root all) all);
  children = delete_where (is_root all) all;
  order = [];
}

unfoldable pub list_thread : ℕ → Db → Option (List ThreadItem)
list_thread board_id db =
    let all = list_messages board_id db in
    walk all (suc (length all)) (first_walk all) >>= λ w. some w.order
