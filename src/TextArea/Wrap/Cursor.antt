-- ===== src/TextArea/Wrap/Cursor.antt =====
-- Where `display` of src/app/textarea.rs puts the cursor: behind the same text as in the buffer.
use bbs_rs.Prelude.{
  ℕ, zero, suc, ◌+◌, ◌-◌, ◌≤◌, ◌<◌, ◌≡◌, ◌≢◌, refl, sym, ap, ◌⊎◌, inl, inr, Bool, true, false, ◌&&◌,
  ◌||◌, List, [], ◌∷◌, ◌++◌, append-nil, append_assoc, Option, none, some, max, length, get_elem?,
  take, take-append, length-append, get_elem?-append-cons, ltb, leb, ◌==◌, if◌then◌else◌,
  Bool-cases, ltb→lt, arith,
}
use mathlib.Core.Path.{subst}
use bbs_rs.TextArea.{Line, TextArea}
use bbs_rs.TextArea.Wrap.{slice, wrap_segments, show_segments, show_lines, or_one_row, display}
use bbs_rs.TextArea.Wrap.Tiles.{
  Tiles, wrap_segments-Tiles, slice-append, take-slice, length-slice-eq,
}
use bbs_rs.TextArea.Wrap.Rows.{
  concat, concat-append, rows_of, rows-show_segments, concat-rows_of, concat-segments,
}

abbrev row_text : Option Line → Line
row_text none = []
row_text (some l) = l

-- The text that stands before the place `(i, j)` of some rows.
abbrev pub text_before : List Line → ℕ × ℕ → List ℕ
text_before rows (i, j) = concat (take i rows) ++ take j (row_text (get_elem? rows i))

-- The place lies on a row, and `pre` is the text before it.
abbrev pub Lands : List Line → ℕ × ℕ → List ℕ → Type 0
Lands rows (i, j) pre =
    (l : Line) × (get_elem? rows i ≡ some l)
    × (j ≤ length l)
    × (concat (take i rows) ++ take j l ≡ pre)

-- A place on some rows stays there when rows are put below.
Lands-append :
    (rows more : List Line) (cursor : ℕ × ℕ) (pre : List ℕ)
    → Lands rows cursor pre
    → Lands (rows ++ more) cursor pre
Lands-append rows more (i, j) pre (l, at, fits, e) =
    (l, get_elem?-append_left rows i at, fits, rw (take-append_left rows i at) e)
  where
    get_elem?-append_left :
        (xs : List Line) (n : ℕ) → get_elem? xs n ≡ some l → get_elem? (xs ++ more) n ≡ some l
    get_elem?-append_left [] n h = cc
    get_elem?-append_left (x ∷ xs) zero h = h
    get_elem?-append_left (x ∷ xs) (suc n) h = get_elem?-append_left xs n h

    take-append_left :
        (xs : List Line) (n : ℕ) → get_elem? xs n ≡ some l → take n (xs ++ more) ≡ take n xs
    take-append_left [] n h = cc
    take-append_left (x ∷ xs) zero h = refl
    take-append_left (x ∷ xs) (suc n) h = ap (x ∷◌) (take-append_left xs n h)

-- The test of the inner loop.
abbrev hits : ℕ → TextArea → Bool → ℕ → ℕ → Bool
hits r ta last a b = r == ta.row && (leb a ta.col && (ltb ta.col b || (last && ta.col == b)))

module _ (ta : TextArea) (line : Line) (r first_row count : ℕ) where
  -- One round of the inner loop, by the outcome of its test.
  show_segments-cons :
      (i a b : ℕ) (segs : List (ℕ × ℕ)) (rows : List Line) (cursor : ℕ × ℕ) (hit : Bool)
      → hits r ta (i + 1 == count) a b ≡ hit
      → show_segments ta line r first_row count i ((a, b) ∷ segs) rows cursor
        ≡ show_segments ta line r first_row count
            (i + 1)
            segs
            (rows ++ slice a b line ∷ [])
            (if hit then (first_row + i, ta.col - a) else cursor)
  unfolding show_segments
  show_segments-cons i a b segs rows cursor hit e =
      ap
        (λ (t : Bool).
          show_segments ta line r first_row count (i + 1) segs (rows ++ slice a b line ∷ [])
            (if t then (first_row + i, ta.col - a) else cursor))
        e

  -- Behind the cursor's column, and on other lines, the cursor stays.
  cursor_later :
      (width a c i : ℕ) (segs : List (ℕ × ℕ)) (rows : List Line) (cursor : ℕ × ℕ)
      → (r ≢ ta.row) ⊎ (ta.col < a)
      → Tiles width a c segs
      → (show_segments ta line r first_row count i segs rows cursor).1 ≡ cursor
  cursor_later width a c i [] rows cursor away t = unfold show_segments in refl
  cursor_later width a c i ((a', b) ∷ segs) rows cursor away (e, le, _, t) =
      rw (show_segments-cons i a' b segs rows cursor false miss)
        (cursor_later width b c (i + 1) segs (rows ++ slice a' b line ∷ []) cursor further t)
    where
      miss : hits r ta (i + 1 == count) a' b ≡ false
      miss = ground arith

      further : (r ≢ ta.row) ⊎ (ta.col < b)
      further = ground arith

  -- The place that the inner loop sets.
  Lands-here :
      (i a b : ℕ) (rows : List Line)
      → length rows ≡ first_row + i
      → a ≤ ta.col
      → ta.col ≤ b
      → b ≤ length line
      → Lands
          (rows ++ slice a b line ∷ [])
          (first_row + i, ta.col - a)
          (concat rows ++ slice a ta.col line)
  Lands-here i a b rows n le le' fits = (
    slice a b line,
    get_elem?-append-cons rows [] (slice a b line) (first_row + i) (sym n),
    omega (arith, length-slice-eq a b line fits),
    rw
        (
          take-append rows (slice a b line ∷ []) (first_row + i) (sym n),
          take-slice a b ta.col line le',
        )
        refl,
  )

  -- After the round that sets the place, the inner loop keeps it.
  Lands-on_hit :
      (width c i a b : ℕ) (segs : List (ℕ × ℕ)) (rows : List Line) (cursor : ℕ × ℕ)
      → hits r ta (i + 1 == count) a b ≡ true
      → length rows ≡ first_row + i
      → a ≤ ta.col
      → ta.col ≤ b
      → b ≤ length line
      → (segs ≡ []) ⊎ (ta.col < b)
      → Tiles width b c segs
      → let shown = show_segments ta line r first_row count i ((a, b) ∷ segs) rows cursor in
        Lands shown.0 shown.1 (concat rows ++ slice a ta.col line)
  Lands-on_hit width c i a b segs rows cursor hit m le le' fits last t =
      rw
        (
          show_segments-cons i a b segs rows cursor true hit,
          rows-show_segments ta line r first_row count (i + 1) segs (rows ++ slice a b line ∷ [])
              place,
          kept segs last t,
        )
        (Lands-append _ (rows_of line segs) place _ (Lands-here i a b rows m le le' fits))
    where
      place : ℕ × ℕ
      place = (first_row + i, ta.col - a)

      kept :
          (segs' : List (ℕ × ℕ))
          → (segs' ≡ []) ⊎ (ta.col < b)
          → Tiles width b c segs'
          → (show_segments ta line r first_row count
              (i + 1)
              segs'
              (rows ++ slice a b line ∷ [])
              place).1
            ≡ place
      kept [] _ _ = unfold show_segments in refl
      kept (s ∷ more) (inl e) t' = cc
      kept (s ∷ more) (inr lt) t' = cursor_later width b c (i + 1) (s ∷ more) _ place (inr lt) t'

  before-cons :
      (rows : List Line) (a b c : ℕ)
      → a ≤ b
      → b ≤ c
      → concat (rows ++ slice a b line ∷ []) ++ slice b c line ≡ concat rows ++ slice a c line
  before-cons rows a b c p q =
      rw (concat-append, append-nil, append_assoc, slice-append a b c line p q) refl

  Lands-show_segments :
      (width a c i : ℕ) (segs : List (ℕ × ℕ)) (rows : List Line) (cursor : ℕ × ℕ)
      → r ≡ ta.row
      → segs ≢ []
      → i + length segs ≡ count
      → length rows ≡ first_row + i
      → a ≤ ta.col
      → ta.col ≤ c
      → c ≤ length line
      → Tiles width a c segs
      → let shown = show_segments ta line r first_row count i segs rows cursor in
        Lands shown.0 shown.1 (concat rows ++ slice a ta.col line)
  Lands-show_segments width a c i [] rows cursor here ne n m le le' fits t = absurd (ne refl)
  Lands-show_segments width a c i ((a', b) ∷ []) rows cursor here ne n m le le' fits (e, _, _, t) =
      rw (← e) (
        Lands-on_hit width c i a' b [] rows cursor (ground arith) m (omega arith) (omega arith)
          (omega arith) (inl refl) t)
  Lands-show_segments width a c i ((a', b) ∷ s ∷ segs) rows cursor here ne n m le le' fits
        (e, w, _, t) =
      elim (Bool-cases (ltb ta.col b)) [
        | inl lt ↦ rw (← e) (
            Lands-on_hit width c i a' b (s ∷ segs) rows cursor (ground arith) m (omega arith)
              (omega (arith, ltb→lt ta.col b lt))
              (omega (arith, (concat-rows_of width line b c (s ∷ segs) t).1))
              (inr (ltb→lt ta.col b lt)) t)
        | inr ge ↦
            rw
              (
                show_segments-cons i a' b (s ∷ segs) rows cursor false (ground arith),
                ← e,
                ← before-cons rows a' b ta.col w (ground arith),
              )
              (Lands-show_segments width b c (i + 1) (s ∷ segs) (rows ++ slice a' b line ∷ [])
                cursor here (λ q. cc) (omega arith)
                (omega (arith, length-append rows (slice a' b line ∷ []))) (ground arith) le' fits
                t)
      ]

-- Below the cursor's line the place stays.
show_lines_past :
    (ta : TextArea) (width : ℕ) (r : ℕ) (lines rows : List Line) (cursor : ℕ × ℕ) (pre : List ℕ)
    → 0 < width
    → ta.row < r
    → Lands rows cursor pre
    → let shown = show_lines ta width r lines rows cursor in Lands shown.0 shown.1 pre
unfolding show_lines
show_lines_past ta width r [] rows cursor pre pos past h = h
show_lines_past ta width r (line ∷ lines) rows cursor pre pos past h =
    show_lines_past ta width (r + 1) lines _ _ pre pos (omega arith) (
      rw
        (
          rows-show_segments ta line r (length rows) _ 0 (wrap_segments line width) rows cursor,
          cursor_later ta line r (length rows) _ width 0 (length line) 0 (wrap_segments line width)
              rows cursor (inl (λ e. omega arith)) (wrap_segments-Tiles line width pos),
        )
        (Lands-append rows (rows_of line (wrap_segments line width)) cursor pre h))

wrap_segments-ne-nil : (line : Line) (width : ℕ) → 0 < width → wrap_segments line width ≢ []
unfolding wrap_segments
wrap_segments-ne-nil [] width pos e = cc
wrap_segments-ne-nil (c ∷ line) width pos e =
    let tiled : Tiles width 0 (length (c ∷ line)) [] =
      subst (Tiles width 0 (length (c ∷ line))) e (wrap_segments-Tiles (c ∷ line) width pos) in
    omega arith

slice-from : (n : ℕ) (l : Line) → slice 0 n l ≡ take n l
slice-from n l = ap (λ (k : ℕ). take k l) (omega arith)

show_lines-Lands :
    (ta : TextArea) (width : ℕ) (k r : ℕ) (lines rows : List Line) (cursor : ℕ × ℕ) (l : Line)
    → 0 < width
    → r + k ≡ ta.row
    → get_elem? lines k ≡ some l
    → ta.col ≤ length l
    → let shown = show_lines ta width r lines rows cursor in
      Lands shown.0 shown.1 (concat rows ++ (concat (take k lines) ++ take ta.col l))
unfolding show_lines
show_lines-Lands ta width k r [] rows cursor l pos at e h = cc
show_lines-Lands ta width zero r (line ∷ lines) rows cursor l pos at e h =
    show_lines_past ta width (r + 1) lines _ _ _ pos (omega arith) (
      rw (← same, ← slice-from ta.col line)
        (Lands-show_segments ta line r (length rows) _ width 0 (length line) 0
          (wrap_segments line width) rows cursor (omega arith) (wrap_segments-ne-nil line width pos)
          (omega arith) (omega arith) (omega arith) (rw same h) (omega arith)
          (wrap_segments-Tiles line width pos)))
  where
    same : line ≡ l
    same = cc
show_lines-Lands ta width (suc k) r (line ∷ lines) rows cursor l pos at e h =
    subst
      (Lands (show_lines ta width r (line ∷ lines) rows cursor).0
        (show_lines ta width r (line ∷ lines) rows cursor).1)
      above (show_lines-Lands ta width k (r + 1) lines shown.0 shown.1 l pos (omega arith) e h)
  where
    shown : List Line × (ℕ × ℕ)
    shown =
        show_segments ta line r (length rows) (length (wrap_segments line width)) 0
          (wrap_segments line width) rows cursor

    above :
        concat shown.0 ++ (concat (take k lines) ++ take ta.col l)
        ≡ concat rows ++ ((line ++ concat (take k lines)) ++ take ta.col l)
    above =
        rw
          (
            rows-show_segments ta line r (length rows) _ 0 (wrap_segments line width) rows cursor,
            concat-append,
            concat-segments width line pos,
          )
          (simp append_assoc)

-- With the cursor in range, `display` puts it on a row that it returns, not past its end, and the
-- text of the rows before it is the text of the buffer before it.
pub display-Lands :
    (ta : TextArea) (width : ℕ) (l : Line)
    → get_elem? ta.lines ta.row ≡ some l
    → ta.col ≤ length l
    → Lands
        (display ta width).0
        (display ta width).1
        (concat (take ta.row ta.lines) ++ take ta.col l)
unfolding display
display-Lands ta width l e h = keeps (show_lines ta (max width 1) 0 ta.lines [] (0, 0)) (
    show_lines-Lands ta (max width 1) ta.row 0 ta.lines [] (0, 0) l (omega arith) (omega arith) e h)
  where
    keeps :
        (shown : List Line × (ℕ × ℕ)) {pre : List ℕ}
        → Lands shown.0 shown.1 pre
        → Lands (or_one_row shown.0) shown.1 pre
    keeps ([], c) (l', at, _, _) = cc
    keeps (x ∷ xs, c) k = k
