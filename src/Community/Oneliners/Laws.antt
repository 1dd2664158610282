-- ===== src/Community/Oneliners/Laws.antt =====
-- What gets onto the wall of src/services/oneliners.rs, and how fast.
use bbs_rs.Prelude.{
  ℕ, suc, ◌-◌, ◌≤◌, ◌≡◌, ◌≢◌, refl, ◌⊎◌, inl, inr, true, false, ◌&&◌, ◌||◌, [], ◌∷◌, ◌++◌, length,
  Text, text_eq, trim, ltb, leb, count_where, count_where-append, Bool-cases, arith,
}
use bbs_rs.Error.{Result, ok, err, Result-cases}
use bbs_rs.Accounts.Tables.{User, is_guest, is_admin}
use bbs_rs.Limits.{Limits, window_start, enforce_rate}
use bbs_rs.Community.Oneliners.{Oneliner, Wall, is_recent, recent_count, throttle, add}

abbrev pub posted : User → Text → ℕ → Wall → Wall
posted author body now wall = record {
  rows =
      wall.rows
      ++ record { id = wall.next_id; author_id = author.id; body = body; created_at = now } ∷ [];
  next_id = suc wall.next_id;
}

-- What an addition may do: be refused and change nothing, or put one line on the wall.
abbrev pub Adds : User → Text → Limits → ℕ → ℕ → Wall → Result ℕ × Wall → Type 0
Adds author body limits max_length now wall (err e, wall') = wall' ≡ wall
Adds author body limits max_length now wall (ok id, wall') =
    (is_guest author ≡ false)
    × (trim body ≢ [])
    × ((max_length ≡ 0) ⊎ (length (trim body) ≤ max_length))
    × (id ≡ wall.next_id)
    × (wall' ≡ posted author (trim body) now wall)
    × ((is_admin author ≡ true)
        ⊎ (limits.window_secs ≡ 0)
        ⊎ (limits.max_oneliners ≡ 0)
        ⊎ (recent_count author.id (now - limits.window_secs) wall' ≤ limits.max_oneliners))

within :
    (author : User) (body : Text) (limits : Limits) (now : ℕ) (wall : Wall) (t : Unit {0})
    → throttle author limits now wall ≡ ok t
    → (is_admin author ≡ true)
      ⊎ (limits.window_secs ≡ 0)
      ⊎ (limits.max_oneliners ≡ 0)
      ⊎ (recent_count author.id (now - limits.window_secs) (posted author body now wall)
          ≤ limits.max_oneliners)
unfolding window_start enforce_rate recent_count
within author body limits now wall t e = elim (Bool-cases (is_admin author)) [
  | inl admin ↦ inl admin
  | inr member ↦ elim (Bool-cases (ltb 0 limits.window_secs)) [
    | inr disabled ↦ inr (inl (ground arith))
    | inl enabled ↦
        let since = now - limits.window_secs in
        let n = count_where (is_recent author.id since) wall.rows in
        elim (Bool-cases (ltb 0 limits.max_oneliners && leb limits.max_oneliners n)) [
          | inl full ↦ cc (rw (member, enabled, full) at e)
          | inr room ↦ elim (Bool-cases (ltb 0 limits.max_oneliners)) [
            | inr unlimited ↦ inr (inr (inl (ground arith)))
            | inl limited ↦
                let row : Oneliner = record {
                  id = wall.next_id;
                  author_id = author.id;
                  body = body;
                  created_at = now;
                } in
                let one = count_where-append (is_recent author.id since) wall.rows (row ∷ []) in
                inr (inr (inr (rw one (ground arith))))
          ]
        ]
  ]
]

-- An addition either is refused and changes nothing, or the author is no guest, the trimmed body
-- is not empty and within the limit, exactly that line is added, and, unless the author is an
-- operator or the limit is off, the author has no more lines in the window than allowed.
pub add-Adds :
    (author : User) (body : Text) (limits : Limits) (max_length now : ℕ) (wall : Wall)
    → Adds author body limits max_length now wall (add author body limits max_length now wall)
unfolding add
add-Adds author body limits max_length now wall = elim (Bool-cases (is_guest author)) [
  | inl guest ↦ rw guest refl
  | inr member ↦
      elim (Bool-cases
        (text_eq (trim body) [] || (ltb 0 max_length && ltb max_length (length (trim body))))) [
          | inl bad ↦ rw (member, bad) refl
          | inr good ↦ elim (Result-cases (throttle author limits now wall)) [
            | inl (e, over) ↦ rw (member, good, over) refl
            | inr (t, fine) ↦
                rw (member, good, fine)
                  (
                    member,
                    (λ e. cc (rw e at good)),
                    bounded (trim body) max_length good,
                    refl,
                    refl,
                    within author (trim body) limits now wall t fine,
                  )
          ]
        ]
]
  where
    bounded :
        (s : Text) (max : ℕ)
        → (text_eq s [] || (ltb 0 max && ltb max (length s))) ≡ false
        → (max ≡ 0) ⊎ (length s ≤ max)
    bounded s max h = elim (Bool-cases (ltb 0 max)) [
      | inr off ↦ inl (ground arith)
      | inl on_ ↦ inr (ground arith)
    ]
