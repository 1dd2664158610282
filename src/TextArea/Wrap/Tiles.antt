-- ===== src/TextArea/Wrap/Tiles.antt =====
-- The segments of `wrap_segments` in src/app/textarea.rs tile the line.
use bbs_rs.Prelude.{
  ℕ, zero, suc, ◌+◌, ◌-◌, ◌≤◌, ◌<◌, ◌≡◌, refl, ap, inl, inr, List, [], ◌∷◌, ◌++◌, some, length,
  take, drop, length-take, Option-cases, arith,
}
use bbs_rs.TextArea.{Line}
use bbs_rs.TextArea.Wrap.{slice, last_space, break_after, wrap_from, wrap_segments}

-- The segments from `start` to `end`, each at most `width` wide, with no gap and no overlap.
abbrev pub Tiles : ℕ → ℕ → ℕ → List (ℕ × ℕ) → Type 0
Tiles width start end [] = start ≡ end
Tiles width start end ((a, b) ∷ segs) =
    (a ≡ start) × (a ≤ b) × (b ≤ a + width) × Tiles width b end segs

length-drop : (n : ℕ) (xs : Line) → length (drop n xs) ≡ length xs - n
length-drop zero xs = omega arith
length-drop (suc n) [] = omega arith
length-drop (suc n) (x ∷ xs) = omega (arith, length-drop n xs)

last_space-lt-length : (l : Line) (i : ℕ) → last_space l ≡ some i → i < length l
unfolding last_space
last_space-lt-length [] i e = cc
last_space-lt-length (c ∷ cs) i e = ground (arith, last_space-lt-length cs (i - 1))

length-slice :
    (start width : ℕ) (line : Line)
    → start + width ≤ length line
    → length (slice start (start + width) line) ≡ width
length-slice start width line h =
    let e : start + width - start ≡ width = omega arith in
    rw e (length-take width (drop start line) (omega (arith, length-drop start line)))

-- A break lies behind the start, and within the width.
break_after_bounds :
    (width : ℕ) (line : Line) (start : ℕ)
    → 0 < width
    → start + width ≤ length line
    → (start < break_after width line start) × (break_after width line start ≤ start + width)
unfolding break_after
break_after_bounds width line start pos fits =
    elim (Option-cases (last_space (slice start (start + width) line))) [
      | inl none_found ↦ rw (none_found, break_after) (omega arith)
      | inr (i, found) ↦
          rw (found, break_after)
            (ground (
              arith,
              last_space-lt-length (slice start (start + width) line) i found,
              length-slice start width line fits,
            ))
    ]

wrap_from-Tiles :
    (fuel width : ℕ) (line : Line) (start : ℕ)
    → 0 < width
    → start ≤ length line
    → length line ≤ start + fuel
    → Tiles width start (length line) (wrap_from fuel width line start)
unfolding wrap_from
wrap_from-Tiles zero width line start pos le enough = omega arith
wrap_from-Tiles (suc fuel) width line start pos le enough = ground (
  arith,
  break_after_bounds width line start pos,
  wrap_from-Tiles fuel width line (break_after width line start) pos,
)

-- Where the width is not zero, any line is cut into segments of at most that width, with no gap and
-- no overlap.
pub wrap_segments-Tiles :
    (line : Line) (width : ℕ) → 0 < width → Tiles width 0 (length line) (wrap_segments line width)
unfolding wrap_segments
wrap_segments-Tiles [] width pos = omega arith
wrap_segments-Tiles (c ∷ line) width pos =
    wrap_from-Tiles (length (c ∷ line)) width (c ∷ line) 0 pos (omega arith) (omega arith)

pub take-nil : (n : ℕ) → take {A = ℕ} n [] ≡ []
take-nil zero = refl
take-nil (suc n) = refl

pub drop-nil : (n : ℕ) → drop {A = ℕ} n [] ≡ []
drop-nil zero = refl
drop-nil (suc n) = refl

take-take-drop : (m n k : ℕ) (xs : Line) → k ≡ m + n → take m xs ++ take n (drop m xs) ≡ take k xs
take-take-drop zero n k xs e = ap (λ (i : ℕ). take i xs) (omega arith)
take-take-drop (suc m) n k [] e = rw (take-nil, take-nil) refl
take-take-drop (suc m) n zero (x ∷ xs) e = absurd (omega arith)
take-take-drop (suc m) n (suc k) (x ∷ xs) e = ap (x ∷◌) (take-take-drop m n k xs (omega arith))

drop-drop : (a m k : ℕ) (xs : Line) → k ≡ a + m → drop m (drop a xs) ≡ drop k xs
drop-drop zero m k xs e = ap (λ (i : ℕ). drop i xs) (omega arith)
drop-drop (suc a) m k [] e = rw (drop-nil, drop-nil) refl
drop-drop (suc a) m zero (x ∷ xs) e = absurd (omega arith)
drop-drop (suc a) m (suc k) (x ∷ xs) e = drop-drop a m k xs (omega arith)

pub slice-append : (a b c : ℕ) (l : Line) → a ≤ b → b ≤ c → slice a b l ++ slice b c l ≡ slice a c l
slice-append a b c l p q =
    rw (← drop-drop a (b - a) b l (omega arith))
      (take-take-drop (b - a) (c - b) (c - a) (drop a l) (omega arith))

pub slice_self : (a : ℕ) (l : Line) → slice a a l ≡ []
slice_self a l = let e : a - a ≡ 0 = omega arith in rw e refl

take-take : (m n : ℕ) (xs : Line) → m ≤ n → take m (take n xs) ≡ take m xs
take-take zero n xs h = refl
take-take (suc m) zero xs h = absurd (omega arith)
take-take (suc m) (suc n) [] h = refl
take-take (suc m) (suc n) (x ∷ xs) h = ap (x ∷◌) (take-take m n xs (omega arith))

-- A segment up to column `c` of the line.
pub take-slice : (a b c : ℕ) (l : Line) → c ≤ b → take (c - a) (slice a b l) ≡ slice a c l
take-slice a b c l h = take-take (c - a) (b - a) (drop a l) (omega arith)

pub length-slice-eq : (a b : ℕ) (l : Line) → b ≤ length l → length (slice a b l) ≡ b - a
length-slice-eq a b l h = length-take (b - a) (drop a l) (omega (arith, length-drop a l))

pub length-slice-le : (a b : ℕ) (l : Line) → length (slice a b l) ≤ b - a
length-slice-le a b l = length-take-le (b - a) (drop a l)
  where
    length-take-le : (n : ℕ) (xs : Line) → length (take n xs) ≤ n
    length-take-le zero xs = omega arith
    length-take-le (suc n) [] = omega arith
    length-take-le (suc n) (x ∷ xs) = omega (arith, length-take-le n xs)
