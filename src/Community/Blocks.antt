-- ===== src/Community/Blocks.antt =====
-- src/services/blocks.rs: the list of users that a user ignores.
pub mod Laws
use bbs_rs.Prelude.{
  ℕ, ◌+◌, ◌<◌, ◌≤◌, ◌≡◌, refl, sym, ap, ◌∙◌, ◌↔◌, ◌⊎◌, inl, inr, Bool, true, false, not, ◌&&◌, ◌||◌,
  List, [], ◌∷◌, ◌++◌, Option, none, some, map, if◌then◌else◌, ◌==◌, ==_iff, ltb, delete_where,
  count_where, count_where-append, count_where-delete_where, count_where-delete_where_apart, find,
  Text, arith, Bool-cases,
}
use bbs_rs.Error.{AppError, guest_not_allowed, blocked, Result, ok, err}
use bbs_rs.Accounts.Tables.{User, is_guest, is_admin}
use bbs_rs.Accounts.Admin.{select}

pub record UserBlock : Type 0 where
  pub blocker_id : ℕ
  pub blocked_id : ℕ
  pub created_at : ℕ

abbrev pub is_pair : ℕ → ℕ → UserBlock → Bool
is_pair blocker blocked_ b = b.blocker_id == blocker && b.blocked_id == blocked_

unfoldable pub block : ℕ → User → User → List UserBlock → Result (Unit {0}) × List UserBlock
block now blocker target rows =
    if is_guest blocker
    then (err guest_not_allowed, rows)
    else if blocker.id == target.id
    then (err blocked, rows)
    else if is_admin target
    then (err blocked, rows)
    else if ltb 0 (count_where (is_pair blocker.id target.id) rows)
    then (ok tt, rows)
    else (
      ok tt,
      rows ++ record { blocker_id = blocker.id; blocked_id = target.id; created_at = now } ∷ [],
    )

unfoldable pub unblock : ℕ → ℕ → List UserBlock → List UserBlock
unblock blocker target rows = delete_where (is_pair blocker target) rows

unfoldable pub is_blocked : ℕ → ℕ → List UserBlock → Bool
is_blocked blocker target rows = ltb 0 (count_where (is_pair blocker target) rows)

pub blocked_ids : ℕ → List UserBlock → List ℕ
blocked_ids blocker rows = map (λ b. b.blocked_id) (select (λ b. b.blocker_id == blocker) rows)
