-- ===== src/Boards/Laws/Threads.antt =====
-- src/services/boards.rs: `list_thread` lists every message of the board once.
pub mod Counts
pub mod Walks
use mathlib.Core.Path.{subst}
use bbs_rs.Prelude.{
  ℕ, zero, suc, ◌+◌, ◌≤◌, ◌<◌, ◌≡◌, refl, sym, ap, ◌∙◌, Bool, true, false, not, ◌&&◌, List, [], ◌∷◌,
  ◌++◌, map, Option, none, some, ◌>>=◌, ◌⊎◌, inl, inr, Bool-cases, Option-cases, arith, length,
  length-append, any, ◌==◌, ==_iff, if◌then◌else◌, reverse, reverse-cons, leb, ltb, ltb→lt,
  delete_where, count_where, count_where-append, count_where-delete_where, count_where-pos,
  count_where-zero, count_where_of_In, In, All, All-delete_where, is_some,
}
use bbs_rs.Accounts.Admin.{select}
use bbs_rs.Boards.{Message, Db}
use bbs_rs.Boards.Threads.{
  ThreadItem, list_messages, is_root, is_child, effective_parent, answers, insert_by_id, sort_by_id,
  item, below, Walk, visit, walk, first_walk, list_thread,
}
use bbs_rs.Boards.Laws.Threads.Counts.{
  count-insert_by_id, count-sort_by_id, count-split, count_items, count_items-map,
  count-delete_where-le, count-anything, length-sort_by_id, length-split, length-map-item,
  ltb-false, All-at, count-pos_of_any, List-cases, count-either, count-reverse,
}
use bbs_rs.Boards.Laws.Threads.Walks.{IsOlder, Inv, walk_ends}

module _ (all : List Message) where
  -- A message that is no root answers one of the messages.
  parent_of :
      (m : Message)
      → is_root all m ≡ false
      → (pid : ℕ) × (m.parent_id ≡ some pid)
        × (any (λ k. k.id == pid) all ≡ true)
        × (is_child all pid m ≡ true)
  parent_of m h = elim (Option-cases m.parent_id) [
    | inl top ↦ cc (rw top at h)
    | inr (pid, e) ↦ elim (Bool-cases (any (λ k. k.id == pid) all)) [
      | inl there ↦ (pid, e, there, rw (e, there) ((==_iff pid pid).1 refl))
      | inr gone ↦ cc (rw (e, gone) at h)
    ]
  ]

  module _ (w : Walk) (empty : w.stack ≡ []) (h : Inv all w) where
    abbrev left_with : ℕ → ℕ
    left_with k = count_where (λ m. m.id == k) w.children

    left_parent :
        (k : ℕ) (m : Message) → In m w.children → m.id ≡ k → ((j : ℕ) → j < k → left_with j ≡ 0) → ⊥
    left_parent k m i e smaller =
        let (pid, parent, there, child) =
          parent_of m (count_where-zero (is_root all) w.children h.no_root m i) in
        let less : pid < m.id = All-at IsOlder w.children m h.older i pid parent in
        let placed : 0 < count_items (λ m. m.id == pid) w.order = omega (
          arith,
          h.counted (λ m. m.id == pid),
          ap (count_items (λ m. m.id == pid)) empty,
          smaller pid (omega (arith, less, e)),
          count-pos_of_any (λ m. m.id == pid) all there,
        ) in
        let other = count_where-zero (is_child all pid) w.children (h.answered pid placed) m i in
        cc (child, other)

    none_left : (n k : ℕ) → k < n → left_with k ≡ 0
    none_left zero k le = absurd (omega arith)
    none_left (suc n) k le = elim (Bool-cases (ltb 0 (left_with k))) [
      | inr zero_ ↦ omega (arith, ltb-false _ zero_)
      | inl some_ ↦
          let (m, i, hit) =
            count_where-pos (λ m. m.id == k) w.children (ltb→lt 0 (left_with k) some_) in
          absurd (left_parent k m i ((==_iff m.id k).0 hit) (λ j lt. none_left n j (omega arith)))
    ]

    nothing_left : w.children ≡ []
    nothing_left = elim (List-cases w.children) [
      | inl e ↦ e
      | inr (m, ms, e) ↦
          let same = (==_iff m.id m.id).1 refl in
          let here : 0 < left_with m.id =
            count_where_of_In (λ k. k.id == m.id) w.children m (rw e (inl refl)) same in
          absurd (omega (arith, here, none_left (suc m.id) m.id (omega arith)))
    ]

    all_placed : (p : Message → Bool) → count_items p w.order ≡ count_where p all
    all_placed p =
        omega (arith, h.counted p, ap (count_items p) empty, ap (count_where p) nothing_left)

  Inv-first : All IsOlder all → Inv all (first_walk all)
  Inv-first h = record {
    counted = λ p.
        omega
          (arith, count_items-map p 0 (select (is_root all) all), count-split p (is_root all) all);
    no_root = count_where-delete_where (is_root all) all;
    answered = λ id q. absurd (omega (arith, q));
    older = All-delete_where IsOlder (is_root all) all h;
  }

  first_fits : length (first_walk all).stack + length (first_walk all).children < suc (length all)
  first_fits =
      omega (arith, length-map-item 0 (select (is_root all) all), length-split (is_root all) all)

abbrev of_board : ℕ → Db → List Message
of_board board_id db = select (λ m. m.board_id == board_id) db.messages

count-list_messages :
    (p : Message → Bool) (board_id : ℕ) (db : Db)
    → count_where p (list_messages board_id db) ≡ count_where p (of_board board_id db)
unfolding list_messages
count-list_messages p board_id db =
    let newest = reverse (of_board board_id db) in
    count_where-append p (select (λ m. m.pinned) newest) (select (λ m. not m.pinned) newest)
    ∙ count-either p (λ m. m.pinned) newest
    ∙ count-reverse p (of_board board_id db)

-- The threads of a board exist and hold every message of the board as often as the table does, so
-- that none is lost and none is listed twice, where every reply has a higher id than the message
-- that it answers.
pub list_thread-Lists :
    (board_id : ℕ) (db : Db)
    → All IsOlder (list_messages board_id db)
    → (items : List ThreadItem) × (list_thread board_id db ≡ some items)
      × ((p : Message → Bool)
          → count_items p items ≡ count_where p (select (λ m. m.board_id == board_id) db.messages))
unfolding list_thread
list_thread-Lists board_id db h =
    let all = list_messages board_id db in
    let (w, ends, empty, inv) =
      walk_ends all (suc (length all)) (first_walk all) (Inv-first all h) (first_fits all) in
    (w.order, rw ends refl, λ p. all_placed all w empty inv p ∙ count-list_messages p board_id db)
