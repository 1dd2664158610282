-- ===== src/Input/Typing.antt =====
-- What is typed comes through: the UTF-8 of any text without control characters, in src/input.rs.
use bbs_rs.Prelude.{
  ℕ, zero, suc, ◌+◌, ◌/◌, ◌%◌, ◌≤◌, ◌<◌, ◌≡◌, ◌≢◌, refl, ap, ◌⊎◌, false, List, [], ◌∷◌, ◌++◌, map,
  length, take, drop, length-append, arith, Bool-cases, inl, inr, none, some, All, ltb, ◌==◌,
  if◌then◌else◌, le→not-ltb,
}
use bbs_rs.Input.{
  key, char, utf8_len, took, from_utf8, control, character, escape, round, drain_from, drain,
}
use bbs_rs.Input.Chunks.{drain-later, drain_from-took, drain_from-nil}
use bbs_rs.Input.Rounds.{take-append_left}

-- The UTF-8 of a code point.
pub utf8 : ℕ → List ℕ
utf8 c =
    if ltb c 0x80
    then c ∷ []
    else if ltb c 0x800
    then (0xC0 + c / 64) ∷ (0x80 + c % 64) ∷ []
    else if ltb c 0x10000
    then (0xE0 + c / 4096) ∷ (0x80 + c / 64 % 64) ∷ (0x80 + c % 64) ∷ []
    else (0xF0 + c / 262144) ∷ (0x80 + c / 4096 % 64) ∷ (0x80 + c / 64 % 64) ∷ (0x80 + c % 64) ∷ []

-- A Unicode scalar value that is no control character.
abbrev pub Printable : ℕ → Type 0
Printable c = (0x20 ≤ c) × (c ≢ 0x7f) × (c ≤ 0x10FFFF) × ((c < 0xD800) ⊎ (0xE000 ≤ c))

from_utf8_two :
    (c : ℕ) → 0x80 ≤ c → c < 0x800 → from_utf8 ((0xC0 + c / 64) ∷ (0x80 + c % 64) ∷ []) ≡ some c
unfolding from_utf8
from_utf8_two c lo hi = ground arith

from_utf8_three :
    (c : ℕ)
    → 0x800 ≤ c
    → c < 0x10000
    → (c < 0xD800) ⊎ (0xE000 ≤ c)
    → from_utf8 ((0xE0 + c / 4096) ∷ (0x80 + c / 64 % 64) ∷ (0x80 + c % 64) ∷ []) ≡ some c
unfolding from_utf8
from_utf8_three c lo hi s = ground arith

from_utf8_four :
    (c : ℕ)
    → 0x10000 ≤ c
    → c ≤ 0x10FFFF
    → from_utf8
        ((0xF0 + c / 262144) ∷ (0x80 + c / 4096 % 64) ∷ (0x80 + c / 64 % 64) ∷ (0x80 + c % 64) ∷ [])
      ≡ some c
unfolding from_utf8
from_utf8_four c lo hi = ground arith

-- A round reads a whole sequence, whatever follows.
round-sequence :
    (b : ℕ) (l more : List ℕ) (c : ℕ)
    → utf8_len b ≡ suc (length l)
    → from_utf8 (b ∷ l) ≡ some c
    → b ≢ 0x1b
    → control b ≡ none
    → round false (b ∷ (l ++ more)) ≡ took (suc (length l)) (key (char c) ∷ [])
unfolding round character
round-sequence b l more c len read ne no_control =
    rw
      (
        not_esc,
        no_control,
        len,
        le→not-ltb (suc (length (l ++ more))) (suc (length l))
            (omega (arith, length-append l more)),
        take-append_left (length l) l more (omega arith),
        take-length l,
        read,
      )
      (ap (λ (n : ℕ). took n (key (char c) ∷ [])) len)
  where
    not_esc : (b == 0x1b) ≡ false
    not_esc = ground arith

    take-length : (xs : List ℕ) → take (length xs) xs ≡ xs
    take-length [] = refl
    take-length (x ∷ xs) = ap (x ∷◌) (take-length xs)

control-none : (b : ℕ) → 0x20 ≤ b → b ≢ 0x7f → control b ≡ none
unfolding control
control-none b lo ne = ground arith

utf8_len_one : (b : ℕ) → b < 0x80 → utf8_len b ≡ 1
unfolding utf8_len
utf8_len_one b h = ground arith

utf8_len_two : (b : ℕ) → 0xC0 ≤ b → b < 0xE0 → utf8_len b ≡ 2
unfolding utf8_len
utf8_len_two b h h' = ground arith

utf8_len_three : (b : ℕ) → 0xE0 ≤ b → b < 0xF0 → utf8_len b ≡ 3
unfolding utf8_len
utf8_len_three b h h' = ground arith

utf8_len_four : (b : ℕ) → 0xF0 ≤ b → utf8_len b ≡ 4
unfolding utf8_len
utf8_len_four b h = ground arith

-- One printable character is one round and one key.
round-utf8 :
    (c : ℕ) (more : List ℕ)
    → Printable c
    → round false (utf8 c ++ more) ≡ took (length (utf8 c)) (key (char c) ∷ [])
round-utf8 c more (lo, ne, hi, scalar) = elim (Bool-cases (ltb c 0x80)) [
  | inl one ↦
      unfold utf8 in
      rw one (
        round-sequence c [] more c (utf8_len_one c (ground arith))
          (unfold from_utf8 in ground arith) (ground arith) (control-none c lo ne))
  | inr big ↦ elim (Bool-cases (ltb c 0x800)) [
    | inl two ↦
        unfold utf8 in
        rw (big, two)
          (round-sequence (0xC0 + c / 64) ((0x80 + c % 64) ∷ []) more c
            (utf8_len_two _ (omega arith) (ground arith))
            (from_utf8_two c (ground arith) (ground arith)) (λ e. omega arith)
            (control-none _ (omega arith) (λ e. omega arith)))
    | inr big' ↦ elim (Bool-cases (ltb c 0x10000)) [
      | inl three ↦
          unfold utf8 in
          rw (big, big', three)
            (round-sequence (0xE0 + c / 4096) ((0x80 + c / 64 % 64) ∷ (0x80 + c % 64) ∷ []) more c
              (utf8_len_three _ (omega arith) (ground arith))
              (from_utf8_three c (ground arith) (ground arith) scalar) (λ e. omega arith)
              (control-none _ (omega arith) (λ e. omega arith)))
      | inr four ↦
          unfold utf8 in
          rw (big, big', four)
            (round-sequence (0xF0 + c / 262144)
              ((0x80 + c / 4096 % 64) ∷ (0x80 + c / 64 % 64) ∷ (0x80 + c % 64) ∷ []) more c
              (utf8_len_four _ (omega arith)) (from_utf8_four c (ground arith) hi)
              (λ e. omega arith) (control-none _ (omega arith) (λ e. omega arith)))
    ]
  ]
]

-- The bytes that a terminal sends for a text.
pub encode : List ℕ → List ℕ
encode [] = []
encode (c ∷ s) = utf8 c ++ encode s

drop-length : (xs ys : List ℕ) → drop (length xs) (xs ++ ys) ≡ ys
drop-length [] ys = refl
drop-length (x ∷ xs) ys = drop-length xs ys

utf8_pos : (c : ℕ) → 0 < length (utf8 c)
unfolding utf8
utf8_pos c = ground arith

drain_from-encode :
    (fuel : ℕ) (s : List ℕ)
    → All Printable s
    → length (encode s) ≤ fuel
    → drain_from fuel false (encode s) ≡ (map (λ c. key (char c)) s, [])
unfolding encode
drain_from-encode fuel [] h enough = drain_from-nil fuel false
drain_from-encode zero (c ∷ s) (p, h) enough =
    absurd (omega (arith, length-append (utf8 c) (encode s), utf8_pos c))
drain_from-encode (suc fuel) (c ∷ s) (p, h) enough =
    rw
      (
        drain_from-took fuel false (utf8 c ++ encode s) (round-utf8 c (encode s) p),
        drop-length (utf8 c) (encode s),
        drain_from-encode fuel s h (omega (arith, length-append (utf8 c) (encode s), utf8_pos c)),
      )
      refl

encode-ne-esc : (s : List ℕ) → All Printable s → encode s ≢ 0x1b ∷ []
unfolding encode
encode-ne-esc [] h e = cc
encode-ne-esc (c ∷ s) (p, h) e = wait_took (rw e at (round-utf8 c (encode s) p))
  where
    wait_took : ¬ (round false (0x1b ∷ []) ≡ took (length (utf8 c)) (key (char c) ∷ []))
    wait_took q = unfold round escape in cc

-- Any text without control characters comes through as typed: its UTF-8 gives one key for each
-- character, in order, and no byte is left over.
pub drain-encode :
    (s : List ℕ) → All Printable s → drain (encode s) ≡ (map (λ c. key (char c)) s, [])
drain-encode s h =
    rw (drain-later (encode s) (encode-ne-esc s h))
      (drain_from-encode (length (encode s)) s h (omega arith))
