-- ===== src/Input/Chunks.antt =====
-- Splitting the byte stream of src/input.rs into packets does not change the keys.
use bbs_rs.Prelude.{
  ℕ, zero, suc, ◌-◌, ◌≤◌, ◌≡◌, ◌≢◌, refl, ap, ◌⊎◌, Bool, true, false, List, [], ◌∷◌, ◌++◌,
  append_assoc, length, take, drop, take-drop, length-append, arith, inl, inr,
}
use bbs_rs.Input.{Event, Round, wait, took, round, drain_from, drain}
use bbs_rs.Input.Rounds.{drop-append_left, took_bounds, round-first, round-append, wait_bound}

pub drain_from-nil : (fuel : ℕ) (first : Bool) → drain_from fuel first [] ≡ ([], [])
unfolding drain_from round
drain_from-nil zero first = refl
drain_from-nil (suc fuel) first = refl

length-drop : (n : ℕ) (xs : List ℕ) → length (drop n xs) ≡ length xs - n
length-drop zero xs = omega arith
length-drop (suc n) [] = omega arith
length-drop (suc n) (x ∷ xs) = omega (arith, length-drop n xs)

Round-cases : (r : Round) → (r ≡ wait) ⊎ ((used : ℕ) × (out : List Event) × (r ≡ took used out))
Round-cases wait = inl refl
Round-cases (took used out) = inr (used, out, refl)

-- The loop, where its first round waits and where it takes some bytes.
drain_from-wait :
    (fuel : ℕ) (first : Bool) (buf : List ℕ)
    → round first buf ≡ wait
    → drain_from fuel first buf ≡ ([], buf)
unfolding drain_from
drain_from-wait zero first buf e = refl
drain_from-wait (suc fuel) first buf e = rw (e, drain_from) refl

pub drain_from-took :
    (fuel : ℕ) (first : Bool) (buf : List ℕ) {used : ℕ} {out : List Event}
    → round first buf ≡ took used out
    → drain_from (suc fuel) first buf ≡ (
      out ++ (drain_from fuel false (drop used buf)).0,
      (drain_from fuel false (drop used buf)).1,
    )
unfolding drain_from
drain_from-took fuel first buf e = rw (e, drain_from) refl

-- Fuel for every byte is enough, and more changes nothing.
pub drain_from_enough :
    (fuel fuel' : ℕ) (first : Bool) (buf : List ℕ)
    → length buf ≤ fuel
    → length buf ≤ fuel'
    → drain_from fuel first buf ≡ drain_from fuel' first buf
drain_from_enough zero fuel' first [] h h' = rw (drain_from-nil, drain_from-nil) refl
drain_from_enough zero fuel' first (b ∷ l) h h' = absurd (omega arith)
drain_from_enough (suc fuel) zero first [] h h' = rw (drain_from-nil, drain_from-nil) refl
drain_from_enough (suc fuel) zero first (b ∷ l) h h' = absurd (omega arith)
drain_from_enough (suc fuel) (suc fuel') first buf h h' = elim (Round-cases (round first buf)) [
  | inl stop ↦
      rw (drain_from-wait (suc fuel) first buf stop, drain_from-wait (suc fuel') first buf stop)
        refl
  | inr (used, out, e) ↦
      rw
        (
          drain_from-took fuel first buf e,
          drain_from-took fuel' first buf e,
          drain_from_enough fuel fuel' false (drop used buf)
              (omega (arith, length-drop used buf, took_bounds first buf e))
              (omega (arith, length-drop used buf, took_bounds first buf e)),
        )
        refl
]

-- What the loop leaves is too short to be a key, and the loop would leave it again.
pub drain_from_rest :
    (fuel : ℕ) (buf : List ℕ)
    → length buf ≤ fuel
    → (round false (drain_from fuel false buf).1 ≡ wait)
unfolding drain_from
drain_from_rest zero [] h = unfold round in refl
drain_from_rest zero (b ∷ l) h = absurd (omega arith)
drain_from_rest (suc fuel) buf h = elim (Round-cases (round false buf)) [
  | inl stop ↦ rw (stop, drain_from) stop
  | inr (used, out, e) ↦
      rw (e, drain_from)
        (drain_from_rest fuel (drop used buf)
          (omega (arith, length-drop used buf, took_bounds false buf e)))
]

-- Two packets are drained as one, where the loop has taken something before.
drain_from-append :
    (fuel : ℕ) (buf more : List ℕ) (n m : ℕ)
    → length buf ≤ fuel
    → length (buf ++ more) ≤ n
    → length ((drain_from fuel false buf).1 ++ more) ≤ m
    → let (out, rest) = drain_from fuel false buf in
      let (out', rest') = drain_from m false (rest ++ more) in
      drain_from n false (buf ++ more) ≡ (out ++ out', rest')
drain_from-append zero [] more n m h h' h'' =
    rw drain_from-nil (drain_from_enough n m false more h' (rw drain_from-nil at h''))
drain_from-append zero (b ∷ l) more n m h h' h'' = absurd (omega arith)
drain_from-append (suc fuel) buf more zero m h h' h'' = elim (Round-cases (round false buf)) [
  | inl stop ↦ rw (drain_from-wait (suc fuel) false buf stop) (
      drain_from_enough zero m false (buf ++ more) h'
        (rw (drain_from-wait (suc fuel) false buf stop) at h''))
  | inr (used, out, e) ↦ absurd (omega (arith, took_bounds false buf e, length-append buf more))
]
drain_from-append (suc fuel) buf more (suc n) m h h' h'' = elim (Round-cases (round false buf)) [
  | inl stop ↦ rw (drain_from-wait (suc fuel) false buf stop) (
      drain_from_enough (suc n) m false (buf ++ more) h'
        (rw (drain_from-wait (suc fuel) false buf stop) at h''))
  | inr (used, out, e) ↦
      rw
        (
          drain_from-took fuel false buf e,
          drain_from-took n false (buf ++ more) (round-append buf more e),
          drop-append_left used buf more (took_bounds false buf e).1,
          drain_from-append fuel (drop used buf) more n m
              (omega (arith, length-drop used buf, took_bounds false buf e))
              (omega (
                arith,
                length-append buf more,
                length-append (drop used buf) more,
                length-drop used buf,
                took_bounds false buf e,
              ))
              (rw (drain_from-took fuel false buf e) at h''),
          append_assoc,
        )
        refl
]

-- But for the lone ESC the buffer is drained as if something had been taken before.
pub drain-later : (buf : List ℕ) → buf ≢ 0x1b ∷ [] → drain buf ≡ drain_from (length buf) false buf
unfolding drain drain_from
drain-later [] ne = refl
drain-later (b ∷ l) ne = rw (round-first (b ∷ l) ne, drain_from) refl

ne-esc-append :
    (buf more : List ℕ)
    → buf ≢ 0x1b ∷ []
    → (drain buf).1 ++ more ≢ 0x1b ∷ []
    → buf ++ more ≢ 0x1b ∷ []
ne-esc-append [] more ne ne' e = ne' (unfold drain drain_from in e)
ne-esc-append (b ∷ []) more ne ne' e = ne (cc)
ne-esc-append (b ∷ c ∷ l) more ne ne' e = cc

-- Wherever a byte stream is split into two packets, the keys are those of the whole and so are the
-- bytes held back, unless a packet leaves the buffer with ESC as its only byte: that is a key.
pub drain-append :
    (buf more : List ℕ)
    → buf ≢ 0x1b ∷ []
    → (drain buf).1 ++ more ≢ 0x1b ∷ []
    → drain (buf ++ more)
      ≡ ((drain buf).0 ++ (drain ((drain buf).1 ++ more)).0, (drain ((drain buf).1 ++ more)).1)
drain-append buf more ne ne' =
    rw
      (
        drain-later (buf ++ more) (ne-esc-append buf more ne ne'),
        drain-later ((drain buf).1 ++ more) ne',
        drain-later buf ne,
      )
      (drain_from-append (length buf) buf more _ _ (omega arith) (omega arith) (omega arith))

drain_from_suffix :
    (fuel : ℕ) (first : Bool) (buf : List ℕ)
    → (read : List ℕ) × (buf ≡ read ++ (drain_from fuel first buf).1)
drain_from_suffix zero first buf = ([], unfold drain_from in refl)
drain_from_suffix (suc fuel) first buf = elim (Round-cases (round first buf)) [
  | inl stop ↦ ([], rw (drain_from-wait (suc fuel) first buf stop) refl)
  | inr (used, out, e) ↦
      let (read, e') = drain_from_suffix fuel false (drop used buf) in
      (
        take used buf ++ read,
        rw (drain_from-took fuel first buf e, append_assoc, ← e', take-drop) refl,
      )
]

drain_rest_short : (buf : List ℕ) → length (drain buf).1 ≤ 3
drain_rest_short [] = unfold drain drain_from in omega arith
drain_rest_short (b ∷ []) =
    let (read, e) = drain_from_suffix 1 true (b ∷ []) in
    unfold drain in omega (arith, ap length e, length-append read (drain_from 1 true (b ∷ [])).1)
drain_rest_short (b ∷ c ∷ l) =
    rw (drain-later (b ∷ c ∷ l) (λ e. cc))
      (wait_bound _ (drain_from_rest (length (b ∷ c ∷ l)) (b ∷ c ∷ l) (omega arith)))

-- Whatever the bytes, what is held back for the next packet is the end of the buffer, and at most
-- three bytes of it.
pub drain_rest_bound :
    (buf : List ℕ) → (read : List ℕ) × (buf ≡ read ++ (drain buf).1) × (length (drain buf).1 ≤ 3)
drain_rest_bound buf =
    let (read, e) = drain_from_suffix (length buf) true buf in
    (read, unfold drain in e, drain_rest_short buf)
