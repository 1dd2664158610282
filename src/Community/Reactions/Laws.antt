-- ===== src/Community/Reactions/Laws.antt =====
-- What toggling keeps of the reactions of src/services/reactions.rs, and how the counts agree.
use bbs_rs.Prelude.{
  All, All-append, All-delete_where, ◌≤◌, count_where-append, count_where-delete_where,
  count_where-delete_where_apart, ℕ, ◌+◌, ◌≡◌, refl, sym, ◌∙◌, ◌⊎◌, inl, inr, Bool, true, false,
  ◌&&◌, List, [], ◌∷◌, ◌++◌, Text, codes, text_eq, text_eq→eq, text_eq_refl, if◌then◌else◌, ◌==◌,
  ==_iff, ltb, count_where, arith, Bool-cases,
}
use bbs_rs.Error.{Result-cases, Result, ok, err}
use bbs_rs.Accounts.Tables.{User, is_guest}
use bbs_rs.Limits.{Limits}
use bbs_rs.Community.Reactions.{
  Row, is_valid_kind, is_of, throttle, toggle, counts, total_for_message,
}

abbrev pub tally : ℕ → ℕ → Text → List Row → ℕ
tally message_id user_id kind rows = count_where (is_of message_id user_id kind) rows

-- No reaction stands twice, and every kind is one of the palette.
abbrev pub IsTable : List Row → Type 0
IsTable rows =
    ((m u : ℕ) (k : Text) → tally m u k rows ≤ 1) × All (λ r. is_valid_kind r.kind ≡ true) rows

abbrev pub Differs : ℕ → ℕ → Text → ℕ → ℕ → Text → Type 0
Differs m u k m' u' k' = ¬ ((m ≡ m') × (u ≡ u') × (k ≡ k'))

is_of-eq :
    (m u : ℕ) (k : Text) (r : Row)
    → is_of m u k r ≡ true
    → (r.message_id ≡ m) × (r.user_id ≡ u) × (r.kind ≡ k)
is_of-eq m u k r h = (ground arith, ground arith, text_eq→eq r.kind k (ground arith))

is_of_apart :
    (m u : ℕ) (k : Text) (m' u' : ℕ) (k' : Text)
    → Differs m u k m' u' k'
    → (r : Row) → is_of m u k r ≡ true
    → is_of m' u' k' r ≡ false
is_of_apart m u k m' u' k' d r h = elim (Bool-cases (is_of m' u' k' r)) [
  | inr other ↦ other
  | inl same ↦
      let (a, b, c) = is_of-eq m u k r h in
      let (a', b', c') = is_of-eq m' u' k' r same in absurd (d (sym a ∙ a', sym b ∙ b', sym c ∙ c'))
]

-- What a toggle may do: be refused and change nothing, or turn one reaction on or off.
abbrev pub Toggles : ℕ → User → Text → List Row → Result Bool × List Row → Type 0
Toggles m user k rows (err e, rows') = rows' ≡ rows
Toggles m user k rows (ok added, rows') =
    (is_guest user ≡ false)
    × (is_valid_kind k ≡ true)
    × (tally m user.id k rows ≡ (if added then 0 else 1))
    × (tally m user.id k rows' ≡ (if added then 1 else 0))
    × ((m' u' : ℕ) (k' : Text)
        → Differs m user.id k m' u' k'
        → tally m' u' k' rows' ≡ tally m' u' k' rows)

abbrev new_row : ℕ → User → Text → ℕ → Row
new_row m user k now = record { message_id = m; user_id = user.id; kind = k; created_at = now }

is_of-new_row :
    (m : ℕ) (user : User) (k : Text) (now : ℕ) → is_of m user.id k (new_row m user k now) ≡ true
is_of-new_row m user k now =
    rw ((==_iff m m).1 refl, (==_iff user.id user.id).1 refl, text_eq_refl k) refl

tally-new_row :
    (m : ℕ) (user : User) (k : Text) (now : ℕ) (rows : List Row)
    → tally m user.id k rows ≡ 0
    → tally m user.id k (rows ++ new_row m user k now ∷ []) ≡ 1
tally-new_row m user k now rows e =
    count_where-append (is_of m user.id k) rows (new_row m user k now ∷ [])
    ∙ rw (e, is_of-new_row m user k now) refl

tally-new_row_apart :
    (m : ℕ) (user : User) (k : Text) (now : ℕ) (rows : List Row) (m' u' : ℕ) (k' : Text)
    → Differs m user.id k m' u' k'
    → tally m' u' k' (rows ++ new_row m user k now ∷ []) ≡ tally m' u' k' rows
tally-new_row_apart m user k now rows m' u' k' d =
    let apart =
      is_of_apart m user.id k m' u' k' d (new_row m user k now) (is_of-new_row m user k now) in
    count_where-append (is_of m' u' k') rows (new_row m user k now ∷ []) ∙ rw apart (omega arith)

-- On a table in which no reaction stands twice, a toggle either is refused and changes nothing,
-- or the user is no guest, the kind is of the palette, and the answer says whether exactly that
-- reaction was turned on or off; every other reaction stays as it was.
pub toggle-Toggles :
    (m : ℕ) (user : User) (k : Text) (limits : Limits) (now : ℕ) (rows : List Row)
    → IsTable rows
    → Toggles m user k rows (toggle m user k limits now rows)
unfolding toggle
toggle-Toggles m user k limits now rows (once, kinds) = elim (Bool-cases (is_guest user)) [
  | inl guest ↦ rw guest refl
  | inr member ↦ elim (Bool-cases (is_valid_kind k)) [
    | inr unknown ↦ rw (member, unknown) refl
    | inl known ↦ elim (Bool-cases (ltb 0 (tally m user.id k rows))) [
      | inl present ↦
          let one = once m user.id k in
          rw (member, known, present)
            (
              member,
              known,
              ground arith,
              count_where-delete_where (is_of m user.id k) rows,
              λ m' u' k' d.
                  count_where-delete_where_apart (is_of m' u' k') (is_of m user.id k)
                    (is_of_apart m' u' k' m user.id k (λ (a, b, c). d (sym a, sym b, sym c))) rows,
            )
      | inr missing ↦
          let none_yet : tally m user.id k rows ≡ 0 = ground arith in
          elim (Result-cases (throttle user limits now rows)) [
            | inl (e, over) ↦ rw (member, known, missing, over) refl
            | inr (_, fine) ↦
                rw (member, known, missing, fine)
                  (
                    member,
                    known,
                    none_yet,
                    tally-new_row m user k now rows none_yet,
                    tally-new_row_apart m user k now rows,
                  )
          ]
    ]
  ]
]

differs? :
    (m u : ℕ) (k : Text) (m' u' : ℕ) (k' : Text)
    → ((m ≡ m') × (u ≡ u') × (k ≡ k')) ⊎ Differs m u k m' u' k'
differs? m u k m' u' k' = elim (Bool-cases (m == m' && u == u' && text_eq k k')) [
  | inl same ↦ inl (ground arith, ground arith, text_eq→eq k k' (ground arith))
  | inr other ↦ inr λ (a, b, c). cc (other, all_same a b c)
]
  where
    all_same : m ≡ m' → u ≡ u' → k ≡ k' → (m == m' && u == u' && text_eq k k') ≡ true
    all_same a b c =
        rw (a, b, c, (==_iff m' m').1 refl, (==_iff u' u').1 refl, text_eq_refl k') refl

kinds_kept :
    (m : ℕ) (user : User) (k : Text) (limits : Limits) (now : ℕ) (rows : List Row)
    → All (λ r. is_valid_kind r.kind ≡ true) rows
    → All (λ r. is_valid_kind r.kind ≡ true) (toggle m user k limits now rows).1
unfolding toggle
kinds_kept m user k limits now rows kinds = elim (Bool-cases (is_guest user)) [
  | inl guest ↦ rw guest kinds
  | inr member ↦ elim (Bool-cases (is_valid_kind k)) [
    | inr unknown ↦ rw (member, unknown) kinds
    | inl known ↦ elim (Bool-cases (ltb 0 (tally m user.id k rows))) [
      | inl present ↦
          rw (member, known, present)
            (All-delete_where (λ r. is_valid_kind r.kind ≡ true) (is_of m user.id k) rows kinds)
      | inr missing ↦ elim (Result-cases (throttle user limits now rows)) [
        | inl (e, over) ↦ rw (member, known, missing, over) kinds
        | inr (_, fine) ↦
            rw (member, known, missing, fine)
              (All-append (λ (r : Row). is_valid_kind r.kind ≡ true) rows
                (new_row m user k now ∷ []) kinds (known, tt))
      ]
    ]
  ]
]

-- A toggle keeps the table free of doubles and of kinds that are not in the palette.
pub toggle-IsTable :
    (m : ℕ) (user : User) (k : Text) (limits : Limits) (now : ℕ) (rows : List Row)
    → IsTable rows
    → IsTable (toggle m user k limits now rows).1
toggle-IsTable m user k limits now rows (once, kinds) = (
  λ m' u' k'.
      fewer (toggle m user k limits now rows)
        (toggle-Toggles m user k limits now rows (once, kinds)) m' u' k',
  kinds_kept m user k limits now rows kinds,
)
  where
    fewer :
        (r : Result Bool × List Row)
        → Toggles m user k rows r
        → (m' u' : ℕ) (k' : Text) → tally m' u' k' r.1 ≤ 1
    fewer (err e, rows') same m' u' k' = rw same (once m' u' k')
    fewer (ok added, rows') (_, _, _, count, others) m' u' k' =
        elim (differs? m user.id k m' u' k') [
          | inl (a, b, c) ↦ elim (Bool-cases added) [
            | inl on_ ↦ rw (← a, ← b, ← c, count, on_) (omega arith)
            | inr off ↦ rw (← a, ← b, ← c, count, off) (omega arith)
          ]
          | inr d ↦ rw (others m' u' k' d) (once m' u' k')
        ]

abbrev pub sum : List (Text × ℕ) → ℕ
sum [] = 0
sum ((_, n) ∷ rest) = n + sum rest

palette_cases :
    (k : Text)
    → is_valid_kind k ≡ true
    → (k ≡ codes "up") ⊎ (k ≡ codes "love") ⊎ (k ≡ codes "laugh")
unfolding is_valid_kind
palette_cases k h = elim (Bool-cases (text_eq (codes "up") k)) [
  | inl up ↦ inl (sym (text_eq→eq (codes "up") k up))
  | inr not_up ↦ elim (Bool-cases (text_eq (codes "love") k)) [
    | inl love ↦ inr (inl (sym (text_eq→eq (codes "love") k love)))
    | inr not_love ↦ elim (Bool-cases (text_eq (codes "laugh") k)) [
      | inl laugh ↦ inr (inr (sym (text_eq→eq (codes "laugh") k laugh)))
      | inr not_laugh ↦ cc (rw (not_up, not_love, not_laugh) at h)
    ]
  ]
]

-- Where all kinds are of the palette, the badge of a post is the sum of its counts by kind.
pub total_for_message-counts :
    (m : ℕ) (rows : List Row)
    → All (λ r. is_valid_kind r.kind ≡ true) rows
    → total_for_message m rows ≡ sum (counts m rows)
unfolding total_for_message counts
total_for_message-counts m [] _ = refl
total_for_message-counts m (r ∷ rows) (valid, rest) =
    let ih = total_for_message-counts m rows rest in
    elim (Bool-cases (r.message_id == m)) [
      | inr other ↦ rw other (omega (arith, ih))
      | inl here ↦ elim (palette_cases r.kind valid) [
        | inl up ↦ rw (here, up) (omega (arith, ih))
        | inr (inl love) ↦ rw (here, love) (omega (arith, ih))
        | inr (inr laugh) ↦ rw (here, laugh) (omega (arith, ih))
      ]
    ]
