-- ===== src/Prelude/Integers.antt =====
-- Signed integers over the native numbers, and their decimal texts.
use Prim.Native.Nat.{ℕ, zero, suc, ◌+◌, ◌-◌, ◌*◌, ◌/◌, ◌%◌, ◌^◌, ◌≤◌}
use mathlib.Core.Bool.{◌&&◌}
use mathlib.Core.Path.{◌≡◌, ap}
use mathlib.Core.Option.{Option, none, some}
use mathlib.Core.List.{[], ◌∷◌}
use native.Mathlib.Omega.{arith}
use bbs_rs.Prelude.Tests.{◌==◌, ltb, leb, ◌>>=◌, if◌then◌else◌}
use bbs_rs.Prelude.Texts.{Text}

pub data ℤ : Type 0 where
  pos negsuc : ℕ → ℤ

-- Twenty digits hold every 64-bit number.
abbrev digits : ℕ → ℕ → Text → Text
digits zero n done = done
digits (suc f) n done =
    let done' = (b'0' + n % 10) ∷ done in
    let rest = digits f (n / 10) done' in if n / 10 == 0 then done' else rest

-- `to_string` on an unsigned and on a signed number
abbrev pub decimal : ℕ → Text
decimal n = digits 20 n []

abbrev pub to_string : ℤ → Text
to_string (pos n) = decimal n
to_string (negsuc n) = b'-' ∷ decimal (suc n)

-- `str::parse` to a signed 64-bit number
abbrev digits_value : ℕ → Text → Option ℕ
digits_value n [] = some n
digits_value n (c ∷ s) =
    let rest = digits_value (n * 10 + (c - b'0')) s in
    if leb b'0' c && leb c b'9' then rest else none

abbrev parse_positive : Text → Option ℤ
parse_positive [] = none
parse_positive (c ∷ s) =
    digits_value 0 (c ∷ s) >>= λ n. if ltb n (2 ^ 63) then some (pos n) else none

abbrev negate : ℕ → ℤ
negate zero = pos 0
negate (suc n) = negsuc n

abbrev parse_negative : Text → Option ℤ
parse_negative [] = none
parse_negative (c ∷ s) =
    digits_value 0 (c ∷ s) >>= λ n. if leb n (2 ^ 63) then some (negate n) else none

abbrev pub parse_i64 : Text → Option ℤ
parse_i64 [] = none
parse_i64 (c ∷ s) =
    if c == b'-'
    then parse_negative s
    else if c == b'+'
    then parse_positive s
    else parse_positive (c ∷ s)

-- Addition, and the amount of a number that is not negative
abbrev difference : ℕ → ℕ → ℤ
difference m n = if leb n m then pos (m - n) else negsuc (n - m - 1)

infixl 60 ◌+ℤ◌
abbrev pub ◌+ℤ◌ : ℤ → ℤ → ℤ
pos a +ℤ pos b = pos (a + b)
pos a +ℤ negsuc b = difference a (suc b)
negsuc a +ℤ pos b = difference b (suc a)
negsuc a +ℤ negsuc b = negsuc (suc (a + b))

abbrev pub amount : ℤ → ℕ
amount (pos n) = n
amount (negsuc _) = 0

pub amount-add : (x y : ℤ) → amount (x +ℤ y) ≤ amount x + amount y
amount-add (pos a) (pos b) = omega arith
amount-add (pos a) (negsuc b) = ground arith
amount-add (negsuc a) (pos b) = ground arith
amount-add (negsuc a) (negsuc b) = omega arith

pub add_assoc : (x y z : ℤ) → (x +ℤ y) +ℤ z ≡ x +ℤ (y +ℤ z)
add_assoc (pos a) (pos b) (pos c) = ap pos (omega arith)
add_assoc (pos a) (pos b) (negsuc c) = ground arith
add_assoc (pos a) (negsuc b) (pos c) = ground arith
add_assoc (pos a) (negsuc b) (negsuc c) = ground arith
add_assoc (negsuc a) (pos b) (pos c) = ground arith
add_assoc (negsuc a) (pos b) (negsuc c) = ground arith
add_assoc (negsuc a) (negsuc b) (pos c) = ground arith
add_assoc (negsuc a) (negsuc b) (negsuc c) = ap negsuc (omega arith)

pub add-zero : (x : ℤ) → x +ℤ pos 0 ≡ x
add-zero (pos a) = ap pos (omega arith)
add-zero (negsuc a) = ground arith

pub zero_add : (x : ℤ) → pos 0 +ℤ x ≡ x
zero_add (pos a) = ap pos (omega arith)
zero_add (negsuc a) = ground arith
