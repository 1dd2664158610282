-- ===== src/Boards/Laws/Threads/Walks.antt =====
-- src/services/boards.rs: the walk of `list_thread` keeps all messages and ends.
use bbs_rs.Prelude.{
  ℕ, zero, suc, ◌+◌, ◌<◌, ◌≡◌, refl, ap, Bool, false, List, [], ◌∷◌, ◌++◌, map, some, inl, inr,
  Bool-cases, arith, length, length-append, ◌==◌, ==_iff, delete_where, count_where,
  count_where-append, count_where-delete_where, All, All-delete_where,
}
use bbs_rs.Accounts.Admin.{select}
use bbs_rs.Boards.{Message}
use bbs_rs.Boards.Threads.{
  ThreadItem, is_root, is_child, sort_by_id, item, below, Walk, visit, walk,
}
use bbs_rs.Boards.Laws.Threads.Counts.{
  count-sort_by_id, count-split, count_items, count_items-map, count-delete_where-le,
  length-sort_by_id, length-split, length-map-item, List-cases,
}

-- A reply is younger than what it answers.
abbrev pub IsOlder : Message → Type 0
IsOlder m = (p : ℕ) → m.parent_id ≡ some p → p < m.id

module _ (all : List Message) where
  -- The messages, counted by a test, are those placed, those on the stack and those not placed yet.
  -- No reply to a placed or waiting message waits to be placed.
  pub record Inv (w : Walk) : Type 0 where
    pub counted :
        (p : Message → Bool)
        → count_items p w.order + count_items p w.stack + count_where p w.children
          ≡ count_where p all
    pub no_root : count_where (is_root all) w.children ≡ 0
    pub answered :
        (id : ℕ)
        → 0 < count_items (λ m. m.id == id) w.order
        → count_where (is_child all id) w.children ≡ 0
    pub older : All IsOlder w.children

  pub Inv-visit :
      (i : ThreadItem) (stack : List ThreadItem) (w : Walk)
      → w.stack ≡ i ∷ stack
      → Inv w
      → Inv (visit all i stack w)
  Inv-visit i stack w e h = record {
    counted = λ p. counts p;
    no_root = omega (
      arith,
      count-delete_where-le (is_root all) (is_child all i.message.id) w.children,
      h.no_root,
    );
    answered = λ id q. closed id q;
    older = All-delete_where _ (is_child all i.message.id) w.children h.older;
  }
    where
      kids : List Message
      kids = select (is_child all i.message.id) w.children

      counts :
          (p : Message → Bool)
          → count_items p (w.order ++ i ∷ [])
              + count_items p (map (item (below i.depth)) (sort_by_id kids) ++ stack)
              + count_where p (delete_where (is_child all i.message.id) w.children)
            ≡ count_where p all
      counts p =
          let shown = λ (j : ThreadItem). p j.message in
          omega (
            arith,
            count_where-append shown w.order (i ∷ []),
            count_where-append shown (map (item (below i.depth)) (sort_by_id kids)) stack,
            count_items-map p (below i.depth) (sort_by_id kids),
            count-sort_by_id p kids,
            count-split p (is_child all i.message.id) w.children,
            ap (count_items p) e,
            h.counted p,
          )

      closed :
          (id : ℕ)
          → 0 < count_items (λ m. m.id == id) (w.order ++ i ∷ [])
          → count_where (is_child all id) (delete_where (is_child all i.message.id) w.children) ≡ 0
      closed id q = elim (Bool-cases (i.message.id == id)) [
        | inl hit ↦
            let same : i.message.id ≡ id = (==_iff i.message.id id).0 hit in
            rw (← same) (count_where-delete_where (is_child all i.message.id) w.children)
        | inr miss ↦
            let placed : 0 < count_items (λ m. m.id == id) w.order = omega (
              arith,
              q,
              count_where-append (λ (j : ThreadItem). j.message.id == id) w.order (i ∷ []),
              count_one miss,
            ) in
            omega (
              arith,
              h.answered id placed,
              count-delete_where-le (is_child all id) (is_child all i.message.id) w.children,
            )
      ]
        where
          count_one : (i.message.id == id) ≡ false → count_items (λ m. m.id == id) (i ∷ []) ≡ 0
          count_one miss = rw miss refl

  -- Enough fuel: every round places one message.
  pub walk_ends :
      (f : ℕ) (w : Walk)
      → Inv w
      → length w.stack + length w.children < f
      → (v : Walk) × (walk all f w ≡ some v) × (v.stack ≡ []) × Inv v
  unfolding walk
  walk_ends zero w h le = absurd (omega arith)
  walk_ends (suc f) w h le = elim (List-cases w.stack) [
    | inl empty ↦ (w, rw empty refl, empty, h)
    | inr (i, stack, e) ↦
        rw e (walk_ends f (visit all i stack w) (Inv-visit i stack w e h) (shrinks i stack e))
  ]
    where
      shrinks :
          (i : ThreadItem) (stack : List ThreadItem)
          → w.stack ≡ i ∷ stack
          → length (visit all i stack w).stack + length (visit all i stack w).children < f
      shrinks i stack e =
          let kids = select (is_child all i.message.id) w.children in
          omega (
            arith,
            length-append (map (item (below i.depth)) (sort_by_id kids)) stack,
            length-map-item (below i.depth) (sort_by_id kids),
            length-sort_by_id kids,
            length-split (is_child all i.message.id) w.children,
            ap length e,
            le,
          )
