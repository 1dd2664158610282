-- ===== src/Prelude/Texts.antt =====
-- Texts as code points, with the methods of Rust's `str` that the program calls.
use Prim.Native.Nat.{ℕ, ◌+◌}
use Prim.Native.Char.{code}
use Prim.Native.String.{String}
use mathlib.Core.Path.{◌≡◌, refl}
use mathlib.Core.Bool.{Bool, true, false, ◌&&◌, ◌||◌}
use mathlib.Core.List.{List, [], ◌∷◌, map, reverse, reverse_aux, reverse-reverse}
use native.Mathlib.Omega.{arith}
use bbs_rs.Prelude.Tests.{leb, ◌==◌, if◌then◌else◌}
use bbs_rs.Prelude.Lists.{all}

abbrev pub Text : Type 0
Text = List ℕ

-- The code points of a literal.
abbrev pub codes : String → Text
codes String.[] = []
codes (String.◌∷◌ c s) = code c ∷ codes s

-- `==` on `str`, and on the columns of a table
abbrev pub text_eq : Text → Text → Bool
text_eq [] [] = true
text_eq [] (_ ∷ _) = false
text_eq (_ ∷ _) [] = false
text_eq (a ∷ s) (b ∷ t) = a == b && text_eq s t

pub text_eq→eq : (s t : Text) → text_eq s t ≡ true → s ≡ t
text_eq→eq [] [] e = refl
text_eq→eq [] (b ∷ t) e = cc
text_eq→eq (a ∷ s) [] e = cc
text_eq→eq (a ∷ s) (b ∷ t) e = ground (arith, text_eq→eq s t)

pub text_eq_refl : (s : Text) → text_eq s s ≡ true
text_eq_refl [] = refl
text_eq_refl (a ∷ s) = ground (arith, text_eq_refl s)

pub eq→text_eq : (s t : Text) → s ≡ t → text_eq s t ≡ true
eq→text_eq s t e = rw e (text_eq_refl t)

-- `char::is_whitespace`
abbrev pub is_whitespace : ℕ → Bool
is_whitespace c =
    (leb 0x09 c && leb c 0x0D)
    || c == 0x20
    || c == 0x85
    || c == 0xA0
    || c == 0x1680
    || (leb 0x2000 c && leb c 0x200A)
    || c == 0x2028
    || c == 0x2029
    || c == 0x202F
    || c == 0x205F
    || c == 0x3000

abbrev pub trim_start : Text → Text
trim_start [] = []
trim_start (c ∷ s) = if is_whitespace c then trim_start s else c ∷ s

abbrev pub trim_end : Text → Text
trim_end s = reverse (trim_start (reverse s))

-- `str::trim`
abbrev pub trim : Text → Text
trim s = trim_end (trim_start s)

-- `str::split` at a character
abbrev on_head : ℕ → List Text → List Text
on_head c [] = (c ∷ []) ∷ []
on_head c (p ∷ ps) = (c ∷ p) ∷ ps

abbrev pub split_on : ℕ → Text → List Text
split_on c [] = [] ∷ []
split_on c (a ∷ s) = let rest = split_on c s in if a == c then [] ∷ rest else on_head a rest

-- `char::to_ascii_lowercase`, `str::to_ascii_lowercase` and `eq_ignore_ascii_case`
abbrev pub lower_char : ℕ → ℕ
lower_char c = if leb b'A' c && leb c b'Z' then c + 32 else c

abbrev pub lower : Text → Text
lower = map lower_char

abbrev pub eq_ignore_case : Text → Text → Bool
eq_ignore_case s t = text_eq (lower s) (lower t)

-- `char::is_ascii_alphanumeric`
abbrev pub is_alphanumeric : ℕ → Bool
is_alphanumeric c =
    (leb b'0' c && leb c b'9') || (leb b'A' c && leb c b'Z') || (leb b'a' c && leb c b'z')

-- A text that begins and ends with no white space is its own trim.
module _ (p : ℕ → Bool) (solid : (c : ℕ) → p c ≡ true → is_whitespace c ≡ false) where
  trim_start_of_all : (s : Text) → all p s ≡ true → trim_start s ≡ s
  trim_start_of_all [] h = refl
  trim_start_of_all (c ∷ s) h = let q : p c ≡ true = ground arith in rw (solid c q) refl

  all-reverse_aux : (s t : Text) → all p s ≡ true → all p t ≡ true → all p (reverse_aux s t) ≡ true
  all-reverse_aux [] t hs ht = ht
  all-reverse_aux (c ∷ s) t hs ht = all-reverse_aux s (c ∷ t) (ground arith) (ground arith)

  pub trim_of_all : (s : Text) → all p s ≡ true → trim s ≡ s
  trim_of_all s h =
      rw
        (
          trim_start_of_all s h,
          trim_start_of_all (reverse s) (all-reverse_aux s [] h refl),
          reverse-reverse,
        )
        refl
