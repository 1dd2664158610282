-- ===== src/Prelude/Trims.antt =====
-- Texts that trimming leaves as they are.
use Prim.Native.Nat.{◌≤◌}
use mathlib.Core.Path.{◌≡◌, refl, sym, ap, ◌∙◌}
use mathlib.Core.Logic.{◌≢◌, inl, inr}
use mathlib.Core.List.{[], ◌∷◌, ◌++◌, reverse, reverse-append, reverse-reverse}
use native.Mathlib.Omega.{arith}
use bbs_rs.Prelude.Tests.{Bool-cases}
use bbs_rs.Prelude.Lists.{length, length-reverse}
use bbs_rs.Prelude.Texts.{Text, is_whitespace, trim_start, trim_end, trim}

length-trim_start : (s : Text) → length (trim_start s) ≤ length s
length-trim_start [] = omega arith
length-trim_start (c ∷ s) = elim (Bool-cases (is_whitespace c)) [
  | inl white ↦ rw white (omega (arith, length-trim_start s))
  | inr solid ↦ rw solid (omega arith)
]

trim_start_same : (s : Text) → length s ≤ length (trim_start s) → trim_start s ≡ s
trim_start_same [] h = refl
trim_start_same (c ∷ s) h = elim (Bool-cases (is_whitespace c)) [
  | inl white ↦ absurd (omega (arith, length-trim_start s, rw white at h))
  | inr solid ↦ rw solid refl
]

trim_start-append : (s t : Text) → s ≢ [] → trim_start s ≡ s → trim_start (s ++ t) ≡ s ++ t
trim_start-append [] t h e = absurd (h refl)
trim_start-append (c ∷ s) t h e = elim (Bool-cases (is_whitespace c)) [
  | inl white ↦ absurd (omega (arith, length-trim_start s, ap length (rw white at e)))
  | inr solid ↦ rw solid refl
]

trim-ends : (s : Text) → trim s ≡ s → trim_start (reverse s) ≡ reverse s
trim-ends s e =
    let back = length-reverse (trim_start (reverse (trim_start s))) in
    let inner = length-trim_start (reverse (trim_start s)) in
    let turned = length-reverse (trim_start s) in
    let whole = ap length e in
    let front = trim_start_same s (omega arith) in
    sym (reverse-reverse (trim_start (reverse s))) ∙ ap reverse (ap trim_end (sym front) ∙ e)

-- White space that a text does not end with is not trimmed off a longer one.
pub trim-append_of_trim :
    (p s : Text) → p ≢ [] → trim_start p ≡ p → s ≢ [] → trim s ≡ s → trim (p ++ s) ≡ p ++ s
trim-append_of_trim p s p_here p_start s_here e =
    rw
      (
        trim_start-append p s p_here p_start,
        reverse-append p s,
        trim_start-append (reverse s) (reverse p)
            (λ q. s_here (sym (reverse-reverse s) ∙ ap reverse q)) (trim-ends s e),
      )
      (sym (ap reverse (reverse-append p s)) ∙ reverse-reverse (p ++ s))
