-- ===== src/Input/Rounds.antt =====
-- One turn of the loop in src/input.rs: how many bytes it takes, and that more bytes behind do not
-- change it.
use bbs_rs.Prelude.{
  ℕ, zero, suc, ◌+◌, ◌≤◌, ◌<◌, ◌≡◌, ◌≢◌, refl, ap, ◌∙◌, Bool, true, false, List, [], ◌∷◌, ◌++◌,
  length, take, drop, length-append, arith, Bool-cases, inl, inr, Option-cases, le→not-ltb, ◌==◌,
}
use bbs_rs.Input.{Event, utf8_len, wait, took, control, character, csi, escape, round}

csi_bounds :
    (l : List ℕ) {used : ℕ} {out : List Event}
    → csi l ≡ took used out
    → (0 < used) × (used ≤ length l + 2)
unfolding csi
csi_bounds [] e = cc
csi_bounds (f ∷ []) e = ground arith
csi_bounds (f ∷ g ∷ more) e = ground arith

csi-append :
    (l more : List ℕ) {used : ℕ} {out : List Event}
    → csi l ≡ took used out
    → csi (l ++ more) ≡ took used out
unfolding csi
csi-append [] more e = cc
csi-append (f ∷ []) [] e = e
csi-append (f ∷ []) (m ∷ more) e = ground arith
csi-append (f ∷ g ∷ l) more e = e

csi_wait : (l : List ℕ) → csi l ≡ wait → length l ≤ 1
unfolding csi
csi_wait [] e = omega arith
csi_wait (f ∷ []) e = omega arith
csi_wait (f ∷ g ∷ l) e = ground arith

escape_bounds :
    (first : Bool) (l : List ℕ) {used : ℕ} {out : List Event}
    → escape first l ≡ took used out
    → (0 < used) × (used ≤ suc (length l))
unfolding escape
escape_bounds true [] e = ground arith
escape_bounds false [] e = cc
escape_bounds first (c ∷ more) e = ground (arith, csi_bounds more)

escape-append :
    (l more : List ℕ) {used : ℕ} {out : List Event}
    → escape false l ≡ took used out
    → escape false (l ++ more) ≡ took used out
unfolding escape
escape-append [] more e = cc
escape-append (c ∷ l) more e = ground (arith, csi-append l more)

escape_wait : (l : List ℕ) → escape false l ≡ wait → length l ≤ 2
unfolding escape
escape_wait [] e = omega arith
escape_wait (c ∷ l) e = ground (arith, csi_wait l)

utf8_len_bounds : (b : ℕ) → (0 < utf8_len b) × (utf8_len b ≤ 4)
unfolding utf8_len
utf8_len_bounds b = ground arith

character_bounds :
    (b : ℕ) (buf : List ℕ) {used : ℕ} {out : List Event}
    → character b buf ≡ took used out
    → (0 < used) × (used ≤ length buf)
unfolding character
character_bounds b buf e = ground (arith, utf8_len_bounds b)

pub take-append_left : (n : ℕ) (xs ys : List ℕ) → n ≤ length xs → take n (xs ++ ys) ≡ take n xs
take-append_left zero xs ys h = refl
take-append_left (suc n) [] ys h = absurd (omega arith)
take-append_left (suc n) (x ∷ xs) ys h = ap (x ∷◌) (take-append_left n xs ys (omega arith))

pub drop-append_left :
    (n : ℕ) (xs ys : List ℕ) → n ≤ length xs → drop n (xs ++ ys) ≡ drop n xs ++ ys
drop-append_left zero xs ys h = refl
drop-append_left (suc n) [] ys h = absurd (omega arith)
drop-append_left (suc n) (x ∷ xs) ys h = drop-append_left n xs ys (omega arith)

character_fits :
    (b : ℕ) (buf : List ℕ) {used : ℕ} {out : List Event}
    → character b buf ≡ took used out
    → utf8_len b ≤ length buf
unfolding character
character_fits b buf e = ground arith

character-append :
    (b : ℕ) (buf more : List ℕ) {used : ℕ} {out : List Event}
    → character b buf ≡ took used out
    → character b (buf ++ more) ≡ took used out
character-append b buf more e = longer (character_fits b buf e) ∙ e
  where
    longer : utf8_len b ≤ length buf → character b (buf ++ more) ≡ character b buf
    longer fits =
        unfold character in
        rw
          (
            le→not-ltb (length (buf ++ more)) (utf8_len b) (omega (arith, length-append buf more)),
            le→not-ltb (length buf) (utf8_len b) fits,
            take-append_left (utf8_len b) buf more fits,
          )
          refl

character_wait : (b : ℕ) (buf : List ℕ) → character b buf ≡ wait → length buf ≤ 3
unfolding character
character_wait b buf e = ground (arith, utf8_len_bounds b)

-- A round takes at least one byte, and at most what is there.
pub took_bounds :
    (first : Bool) (buf : List ℕ) {used : ℕ} {out : List Event}
    → round first buf ≡ took used out
    → (0 < used) × (used ≤ length buf)
unfolding round
took_bounds first [] e = cc
took_bounds first (b ∷ l) e = ground (arith, escape_bounds first l, character_bounds b (b ∷ l))

-- With nothing taken before, only the lone ESC is read otherwise than later in the buffer.
pub round-first : (buf : List ℕ) → buf ≢ 0x1b ∷ [] → round true buf ≡ round false buf
unfolding round escape
round-first [] ne = refl
round-first (b ∷ []) ne = ground arith
round-first (b ∷ c ∷ more) ne = refl

-- More bytes behind do not change a round that took some.
pub round-append :
    (buf more : List ℕ) {used : ℕ} {out : List Event}
    → round false buf ≡ took used out
    → round false (buf ++ more) ≡ took used out
unfolding round
round-append [] more e = cc
round-append (b ∷ l) more e = elim (Bool-cases (b == 0x1b)) [
  | inl is ↦ rw is (escape-append l more (rw is at e))
  | inr other ↦ rw other (elim (Option-cases (control b)) [
    | inl none_of ↦ rw none_of (character-append b (b ∷ l) more (rw (other, none_of) at e))
    | inr (out', is) ↦ rw is (rw (other, is) at e)
  ])
]

-- A round that waits has at most three bytes before it.
pub wait_bound : (buf : List ℕ) → round false buf ≡ wait → length buf ≤ 3
unfolding round
wait_bound [] e = omega arith
wait_bound (b ∷ l) e = ground (arith, escape_wait l, character_wait b (b ∷ l))
