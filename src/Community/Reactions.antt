-- ===== src/Community/Reactions.antt =====
-- src/services/reactions.rs: the table `message_reactions`, with toggling and counting.
pub mod Laws
use bbs_rs.Prelude.{
  ℕ, ◌+◌, ◌<◌, ◌≡◌, ◌≢◌, refl, sym, ap, ◌∙◌, ◌⊎◌, inl, inr, Bool, true, false, not, ◌&&◌, ◌||◌,
  List, [], ◌∷◌, ◌++◌, Option, none, some, map, any, length, Text, codes, text_eq, text_eq→eq,
  text_eq_refl, if◌then◌else◌, ◌==◌, ==_iff, ltb, leb, lt→ltb, delete_where, count_where, arith,
  Bool-cases, Option-cases,
}
use bbs_rs.Error.{AppError, guest_not_allowed, not_found, rate_limited, Result, ok, err}
use bbs_rs.Accounts.Tables.{User, is_guest, is_admin}
use bbs_rs.Accounts.Admin.{select}
use bbs_rs.Limits.{Limits, window_start, enforce_rate}

pub record Row : Type 0 where
  pub message_id : ℕ
  pub user_id : ℕ
  pub kind : Text
  pub created_at : ℕ

abbrev pub palette : List Text
palette = codes "up" ∷ codes "love" ∷ codes "laugh" ∷ []

unfoldable pub is_valid_kind : Text → Bool
is_valid_kind kind = any (λ k. text_eq k kind) palette

abbrev pub is_of : ℕ → ℕ → Text → Row → Bool
is_of message_id user_id kind r =
    r.message_id == message_id && r.user_id == user_id && text_eq r.kind kind

unfoldable pub recent_count : ℕ → ℕ → List Row → ℕ
recent_count user_id since rows =
    count_where (λ r. r.user_id == user_id && leb since r.created_at) rows

-- The throttle of the adding path: admins and a disabled window are exempt.
abbrev pub throttle : User → Limits → ℕ → List Row → Result (Unit {0})
throttle user limits now rows = if is_admin user then ok tt else elim (window_start limits now) [
  | none ↦ ok tt
  | some since ↦ enforce_rate (recent_count user.id since rows) limits.max_reactions
]

abbrev pub add_row : ℕ → User → Text → ℕ → List Row → Result (Unit {0}) → Result Bool × List Row
add_row message_id user kind now rows (err e) = (err e, rows)
add_row message_id user kind now rows (ok _) = (
  ok true,
  rows ++ record { message_id = message_id; user_id = user.id; kind = kind; created_at = now } ∷ [],
)

unfoldable pub toggle : ℕ → User → Text → Limits → ℕ → List Row → Result Bool × List Row
unfolding is_valid_kind recent_count
toggle message_id user kind limits now rows =
    if is_guest user
    then (err guest_not_allowed, rows)
    else if not (is_valid_kind kind)
    then (err not_found, rows)
    else if ltb 0 (count_where (is_of message_id user.id kind) rows)
    then (ok false, delete_where (is_of message_id user.id kind) rows)
    else add_row message_id user kind now rows (throttle user limits now rows)

unfoldable pub counts : ℕ → List Row → List (Text × ℕ)
counts message_id rows =
    map (λ k. (k, count_where (λ r. r.message_id == message_id && text_eq r.kind k) rows)) palette

pub my_kinds : ℕ → ℕ → List Row → List Text
my_kinds message_id user_id rows =
    map (λ r. r.kind) (select (λ r. r.message_id == message_id && r.user_id == user_id) rows)

unfoldable pub total_for_message : ℕ → List Row → ℕ
total_for_message message_id rows = count_where (λ r. r.message_id == message_id) rows

unfoldable pub clear_for_message : ℕ → List Row → List Row
clear_for_message message_id rows = delete_where (λ r. r.message_id == message_id) rows
