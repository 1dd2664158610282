-- ===== src/Accounts/Names.antt =====
-- Usernames: `validate_username` of src/services/auth.rs and `Accounts::is_reserved` of
-- src/config.rs.
use bbs_rs.Prelude.{
  ℕ, ◌≤◌, ◌≡◌, ◌≢◌, sym, ◌↔◌, Bool, true, false, not, ◌||◌, List, [], ◌∷◌, length, all, any, All,
  ltb, ◌==◌, if◌then◌else◌, arith, Text, codes, text_eq, eq→text_eq, trim, eq_ignore_case,
  is_whitespace, is_alphanumeric, trim_of_all,
}
use bbs_rs.Error.{AppError, username_invalid, Result, ok, err}

abbrev pub max_username_chars : ℕ
max_username_chars = 32

pub username_char_ok : ℕ → Bool
username_char_ok c = is_alphanumeric c || c == b'_' || c == b'-' || c == b'.'

pub validate_username : Text → Result (Unit {0})
validate_username username =
    let len = length username in
    if not (text_eq username (trim username))
    then err (username_invalid max_username_chars)
    else if len == 0 || ltb max_username_chars len
    then err (username_invalid max_username_chars)
    else if not (all username_char_ok username)
    then err (username_invalid max_username_chars)
    else ok tt

-- `[accounts]`, the registration policy
pub record Policy : Type 0 where
  pub reserved_usernames : List Text
  pub require_validation : Bool

pub is_reserved : Policy → Text → Bool
is_reserved policy name =
    let trimmed = trim name in
    eq_ignore_case trimmed (codes "guest")
    || any (λ r. eq_ignore_case (trim r) trimmed) policy.reserved_usernames

-- The names that may be registered: 1 to 32 letters, digits and `_ - .`.
abbrev pub IsName : Text → Type 0
IsName s = (1 ≤ length s) × (length s ≤ 32) × (all username_char_ok s ≡ true)

username_char_solid : (c : ℕ) → username_char_ok c ≡ true → is_whitespace c ≡ false
unfolding username_char_ok
username_char_solid c h = ground arith

-- A name is accepted exactly when it is 1 to 32 letters, digits and `_ - .`; the test for white
-- space around it refuses nothing else.
pub validate_username_iff : (s : Text) → (validate_username s ≡ ok tt) ↔ IsName s
unfolding validate_username
validate_username_iff s = (accepted, accepts)
  where
    accepted : validate_username s ≡ ok tt → IsName s
    accepted h = ground arith

    accepts : IsName s → validate_username s ≡ ok tt
    accepts (lo, hi, chars) =
        rw
          (
            eq→text_eq s (trim s) (sym (trim_of_all username_char_ok username_char_solid s chars)),
            chars,
          )
          (ground arith)

-- A name that is refused is refused with the limit, and for no other reason.
pub validate_username-err :
    (s : Text) {e : AppError} → validate_username s ≡ err e → e ≡ username_invalid 32
unfolding validate_username
validate_username-err s h = ground arith

char_local :
    (c : ℕ) → username_char_ok c ≡ true → (c ≢ b'@') × (c ≢ b'/') × (is_whitespace c ≡ false)
unfolding username_char_ok
char_local c h = (λ e. ground arith, λ e. ground arith, username_char_solid c h)

-- No accepted name holds `@`, `/` or white space, so none is another server's `user@domain`.
pub IsName-All_local :
    (s : Text) → IsName s → All (λ c. (c ≢ b'@') × (c ≢ b'/') × (is_whitespace c ≡ false)) s
IsName-All_local s (_, _, h) = each s h
  where
    each :
        (t : Text)
        → all username_char_ok t ≡ true
        → All (λ c. (c ≢ b'@') × (c ≢ b'/') × (is_whitespace c ≡ false)) t
    each [] _ = tt
    each (c ∷ t) q = (char_local c (ground arith), each t (ground arith))
