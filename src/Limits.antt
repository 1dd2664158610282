-- ===== src/Limits.antt =====
-- The rate limits of src/config.rs and the checks of src/services/mod.rs. A window of length 0 or
-- less is 0 here, and times are Unix seconds after 1970: `now - window_secs`, where it is
-- negative, admits the same rows as 0.
use bbs_rs.Prelude.{
  ℕ, suc, ◌-◌, ◌&&◌, List, [], ◌∷◌, Option, none, some, length, Text, codes, text_eq, if◌then◌else◌,
  ltb, leb,
}
use bbs_rs.Error.{rate_limited, field_too_long, Result, ok, err}

pub record Limits : Type 0 where
  pub window_secs : ℕ
  pub max_posts : ℕ
  pub max_mail : ℕ
  pub max_oneliners : ℕ
  pub max_reactions : ℕ
  pub daily_minutes : ℕ
  pub max_attachments : ℕ
  pub max_subject_chars : ℕ
  pub max_body_chars : ℕ

unfoldable pub window_start : Limits → ℕ → Option ℕ
window_start limits now = if ltb 0 limits.window_secs then some (now - limits.window_secs) else none

unfoldable pub enforce_rate : ℕ → ℕ → Result (Unit {0})
enforce_rate count max = if ltb 0 max && leb max count then err rate_limited else ok tt

unfoldable pub enforce_len : Text → Text → ℕ → Result (Unit {0})
enforce_len field value max =
    if ltb 0 max && ltb max (length value) then err (field_too_long field max) else ok tt

abbrev rank_from : ℕ → Text → List Text → ℕ
rank_from i role [] = 0
rank_from i role (r ∷ rs) = if text_eq r role then i else rank_from (suc i) role rs

-- The position of a role in `ROLES`, 0 for an unknown one
unfoldable pub role_rank : Text → ℕ
role_rank role = rank_from 0 role (codes "guest" ∷ codes "user" ∷ codes "admin" ∷ [])
