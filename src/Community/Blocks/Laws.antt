-- ===== src/Community/Blocks/Laws.antt =====
-- What blocking and unblocking of src/services/blocks.rs do to the list.
use bbs_rs.Prelude.{
  ℕ, ◌+◌, ◌≤◌, ◌≡◌, refl, ◌∙◌, ◌↔◌, ◌⊎◌, inl, inr, true, false, ◌&&◌, List, [], ◌∷◌, ◌++◌,
  if◌then◌else◌, ◌==◌, ==_iff, ltb, count_where, count_where-append, count_where-delete_where,
  count_where-delete_where_apart, arith, Bool-cases,
}
use bbs_rs.Error.{Result, ok, err}
use bbs_rs.Accounts.Tables.{User, is_guest, is_admin}
use bbs_rs.Community.Blocks.{UserBlock, is_pair, block, unblock, is_blocked}

abbrev pub IsTable : List UserBlock → Type 0
IsTable rows =
    (a b : ℕ) → (count_where (is_pair a b) rows ≤ 1) × (count_where (is_pair a a) rows ≡ 0)

is_pair_apart :
    (a b c d : ℕ)
    → ¬ ((a ≡ c) × (b ≡ d))
    → (r : UserBlock) → is_pair a b r ≡ true
    → is_pair c d r ≡ false
is_pair_apart a b c d apart r h = elim (Bool-cases (is_pair c d r)) [
  | inr other ↦ other
  | inl same ↦ absurd (apart (ground arith, ground arith))
]

count-new :
    (now a b : ℕ) (rows : List UserBlock) (c d : ℕ)
    → count_where
        (is_pair c d)
        (rows ++ record { blocker_id = a; blocked_id = b; created_at = now } ∷ [])
      ≡ count_where (is_pair c d) rows + (if a == c && b == d then 1 else 0)
count-new now a b rows c d =
    count_where-append (is_pair c d) rows
      (record { blocker_id = a; blocked_id = b; created_at = now } ∷ [])
    ∙ omega arith

-- Blocking keeps the table free of doubles and of users who block themselves.
pub block-IsTable :
    (now : ℕ) (blocker target : User) (rows : List UserBlock)
    → IsTable rows
    → IsTable (block now blocker target rows).1
unfolding block
block-IsTable now blocker target rows h a b = elim (Bool-cases (is_guest blocker)) [
  | inl guest ↦ rw guest (h a b)
  | inr member ↦ elim (Bool-cases (blocker.id == target.id)) [
    | inl self ↦ rw (member, self) (h a b)
    | inr other ↦ elim (Bool-cases (is_admin target)) [
      | inl admin ↦ rw (member, other, admin) (h a b)
      | inr plain ↦ elim (Bool-cases (ltb 0 (count_where (is_pair blocker.id target.id) rows))) [
        | inl there ↦ rw (member, other, plain, there) (h a b)
        | inr missing ↦
            rw (member, other, plain, missing)
              (fits now blocker.id target.id rows other missing a b (h a b))
      ]
    ]
  ]
]
  where
    fits :
        (now u v : ℕ) (rows : List UserBlock)
        → (u == v) ≡ false
        → ltb 0 (count_where (is_pair u v) rows) ≡ false
        → (a b : ℕ) → (count_where (is_pair a b) rows ≤ 1) × (count_where (is_pair a a) rows ≡ 0)
        → let rows' = rows ++ record { blocker_id = u; blocked_id = v; created_at = now } ∷ [] in
          (count_where (is_pair a b) rows' ≤ 1) × (count_where (is_pair a a) rows' ≡ 0)
    fits now u v rows other missing a b (once, never) = elim (Bool-cases (u == a && v == b)) [
      | inl same ↦
          let ua : u ≡ a = ground arith in
          let vb : v ≡ b = ground arith in
          (
            rw (count-new now u v rows a b, same, ← ua, ← vb) (ground arith),
            rw (count-new now u v rows a a) (ground arith),
          )
      | inr apart ↦ (
        rw (count-new now u v rows a b, apart) (ground arith),
        rw (count-new now u v rows a a) (ground arith),
      )
    ]

-- What a block may do: be refused for a guest, for oneself or for an operator, or be in force.
abbrev pub Blocks : User → User → List UserBlock → Result (Unit {0}) × List UserBlock → Type 0
Blocks blocker target rows (err e, rows') =
    (rows' ≡ rows)
    × ((is_guest blocker ≡ true) ⊎ (blocker.id ≡ target.id) ⊎ (is_admin target ≡ true))
Blocks blocker target rows (ok _, rows') =
    (is_guest blocker ≡ false)
    × (¬ (blocker.id ≡ target.id))
    × (is_admin target ≡ false)
    × ((a b : ℕ)
        → (is_blocked a b rows' ≡ true)
          ↔ ((is_blocked a b rows ≡ true) ⊎ ((a ≡ blocker.id) × (b ≡ target.id))))

-- A block either is refused, exactly for guests, for oneself and for operators, and changes
-- nothing, or is in force from then on, beside those that were.
pub block-Blocks :
    (now : ℕ) (blocker target : User) (rows : List UserBlock)
    → Blocks blocker target rows (block now blocker target rows)
unfolding block is_blocked
block-Blocks now blocker target rows = elim (Bool-cases (is_guest blocker)) [
  | inl guest ↦ rw guest (refl, inl guest)
  | inr member ↦ elim (Bool-cases (blocker.id == target.id)) [
    | inl self ↦ rw (member, self) (refl, inr (inl ((==_iff blocker.id target.id).0 self)))
    | inr other ↦ elim (Bool-cases (is_admin target)) [
      | inl admin ↦ rw (member, other, admin) (refl, inr (inr admin))
      | inr plain ↦ elim (Bool-cases (ltb 0 (count_where (is_pair blocker.id target.id) rows))) [
        | inl there ↦
            rw (member, other, plain, there)
              (
                member,
                (λ e. ground arith),
                plain,
                λ a b. (λ h. inl h, λ s. elim s [ inl h ↦ h | inr (x, y) ↦ rw (x, y) there ]),
              )
        | inr missing ↦
            rw (member, other, plain, missing)
              (member, (λ e. ground arith), plain, grows now blocker.id target.id rows)
      ]
    ]
  ]
]
  where
    grows :
        (now u v : ℕ) (rows : List UserBlock) (a b : ℕ)
        → (ltb 0 (
              count_where
                (is_pair a b)
                (rows ++ record { blocker_id = u; blocked_id = v; created_at = now } ∷ []))
            ≡ true)
          ↔ ((ltb 0 (count_where (is_pair a b) rows) ≡ true) ⊎ ((a ≡ u) × (b ≡ v)))
    grows now u v rows a b = rw (count-new now u v rows a b) (to, from)
      where
        n : ℕ
        n = count_where (is_pair a b) rows

        to :
            ltb 0 (n + (if u == a && v == b then 1 else 0)) ≡ true
            → (ltb 0 n ≡ true) ⊎ ((a ≡ u) × (b ≡ v))
        to h = elim (Bool-cases (ltb 0 n)) [
          | inl old ↦ inl old
          | inr fresh ↦ inr (ground arith, ground arith)
        ]

        from :
            (ltb 0 n ≡ true) ⊎ ((a ≡ u) × (b ≡ v))
            → ltb 0 (n + (if u == a && v == b then 1 else 0)) ≡ true
        from (inl old) = ground arith
        from (inr (x, y)) = ground arith

-- After a user is unblocked, that block alone is gone.
pub unblock-is_blocked :
    (a b : ℕ) (rows : List UserBlock)
    → (is_blocked a b (unblock a b rows) ≡ false)
      × ((c d : ℕ)
          → ¬ ((c ≡ a) × (d ≡ b))
          → is_blocked c d (unblock a b rows) ≡ is_blocked c d rows)
unfolding unblock is_blocked
unblock-is_blocked a b rows = (
  rw (count_where-delete_where (is_pair a b) rows) refl,
  λ c d apart.
      rw
        (count_where-delete_where_apart (is_pair c d) (is_pair a b) (is_pair_apart c d a b apart)
          rows)
        refl,
)
