-- ===== src/Community/Oneliners.antt =====
-- src/services/oneliners.rs: the wall of one-line posts.
pub mod Laws
use bbs_rs.Prelude.{
  ℕ, suc, Bool, true, false, not, ◌&&◌, ◌||◌, List, [], ◌∷◌, ◌++◌, Option, none, some, length, Text,
  text_eq, trim, if◌then◌else◌, ◌==◌, ltb, leb, delete_where, count_where,
}
use bbs_rs.Error.{AppError, guest_not_allowed, oneliner_length, Result, ok, err}
use bbs_rs.Accounts.Tables.{User, is_guest, is_admin}
use bbs_rs.Limits.{Limits, window_start, enforce_rate}

pub record Oneliner : Type 0 where
  pub id : ℕ
  pub author_id : ℕ
  pub body : Text
  pub created_at : ℕ

pub record Wall : Type 0 where
  pub rows : List Oneliner
  pub next_id : ℕ

abbrev pub is_recent : ℕ → ℕ → Oneliner → Bool
is_recent author_id since o = o.author_id == author_id && leb since o.created_at

unfoldable pub count_by_author : ℕ → Wall → ℕ
count_by_author author_id wall = count_where (λ o. o.author_id == author_id) wall.rows

unfoldable pub count : Wall → ℕ
count wall = length wall.rows

unfoldable pub recent_count : ℕ → ℕ → Wall → ℕ
recent_count author_id since wall = count_where (is_recent author_id since) wall.rows

abbrev pub throttle : User → Limits → ℕ → Wall → Result (Unit {0})
throttle author limits now wall =
    if is_admin author then ok tt else elim (window_start limits now) [
      | none ↦ ok tt
      | some since ↦ enforce_rate (recent_count author.id since wall) limits.max_oneliners
    ]

abbrev pub insert_row : User → Text → ℕ → Wall → Result (Unit {0}) → Result ℕ × Wall
insert_row author body now wall (err e) = (err e, wall)
insert_row author body now wall (ok _) = (
  ok wall.next_id,
  record {
    rows =
        wall.rows
        ++ record { id = wall.next_id; author_id = author.id; body = body; created_at = now } ∷ [];
    next_id = suc wall.next_id;
  },
)

unfoldable pub add : User → Text → Limits → ℕ → ℕ → Wall → Result ℕ × Wall
add author raw_body limits max_length now wall =
    let body = trim raw_body in
    if is_guest author
    then (err guest_not_allowed, wall)
    else if text_eq body [] || (ltb 0 max_length && ltb max_length (length body))
    then (err (oneliner_length max_length), wall)
    else insert_row author body now wall (throttle author limits now wall)

unfoldable pub delete : ℕ → Wall → Bool × Wall
delete id wall = (
  ltb 0 (count_where (λ o. o.id == id) wall.rows),
  record wall { rows = delete_where (λ o. o.id == id) wall.rows },
)
