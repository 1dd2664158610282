-- ===== src/Error.antt =====
-- src/error.rs: the errors of the services, and `Result`. Database and migration errors are left
-- out: the tables of the model answer every query. So are errors of other crates, and the text
-- that a hashing error holds.
use bbs_rs.Prelude.{ℕ, Text, ◌≡◌, refl, ◌⊎◌, inl, inr}

pub data AppError : Type 0 where
  hash username_taken key_exists username_reserved : AppError
  username_invalid password_too_short : ℕ → AppError
  password_incorrect guest_not_allowed : AppError
  oneliner_length : ℕ → AppError
  field_too_long : Text → ℕ → AppError
  rate_limited board_locked poll_invalid poll_closed board_write_denied : AppError
  recipient_not_found blocked not_found : AppError
  bad_role invalid_key other : Text → AppError
  too_many_attachments file_too_large quota_exceeded : ℕ → AppError
  extension_not_allowed : AppError

pub data Result {ℓ} (A : Type ℓ) : Type ℓ where
  ok : A → Result A
  err : AppError → Result A

infixl 5 ◌>>=◌ ◌>>◌
abbrev pub ◌>>=◌ {ℓ κ} : {A : Type ℓ} {B : Type κ} → Result A → (A → Result B) → Result B
ok a >>= f = f a
err e >>= f = err e

abbrev pub ◌>>◌ {ℓ} : {B : Type ℓ} → Result (Unit {0}) → Result B → Result B
r >> k = r >>= λ _. k

pub Result-cases {ℓ} :
    {A : Type ℓ} (r : Result A) → ((e : AppError) × (r ≡ err e)) ⊎ ((a : A) × (r ≡ ok a))
Result-cases (err e) = inl (e, refl)
Result-cases (ok a) = inr (a, refl)

-- Inversion of a successful bind
pub bind-ok {ℓ κ} :
    {A : Type ℓ} {B : Type κ} (r : Result A) (f : A → Result B) {b : B}
    → (r >>= f) ≡ ok b
    → (a : A) × (r ≡ ok a) × (f a ≡ ok b)
bind-ok (err e) f h = cc
bind-ok (ok a) f h = (a, refl, h)
