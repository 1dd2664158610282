-- ===== src/TextArea/Wrap/Rows.antt =====
-- What `display` of src/app/textarea.rs keeps: the width, the text and the place of the cursor.
use bbs_rs.Prelude.{
  ℕ, ◌+◌, ◌-◌, ◌≤◌, ◌<◌, ◌≡◌, refl, sym, ◌∙◌, List, [], ◌∷◌, ◌++◌, append-nil, append_assoc, max,
  length, take, take-append, All, All-append, arith,
}
use mathlib.Core.Path.{subst}
use bbs_rs.TextArea.{Line, TextArea}
use bbs_rs.TextArea.Wrap.{slice, wrap_segments, show_segments, show_lines, or_one_row, display}
use bbs_rs.TextArea.Wrap.Tiles.{
  Tiles, wrap_segments-Tiles, slice-append, slice_self, length-slice-le,
}

abbrev pub concat : List Line → List ℕ
concat [] = []
concat (l ∷ ls) = l ++ concat ls

pub concat-append : (xs ys : List Line) → concat (xs ++ ys) ≡ concat xs ++ concat ys
concat-append [] ys = refl
concat-append (x ∷ xs) ys = rw (concat-append xs ys, append_assoc) refl

pub rows_of : Line → List (ℕ × ℕ) → List Line
rows_of line [] = []
rows_of line ((a, b) ∷ segs) = slice a b line ∷ rows_of line segs

module _ (ta : TextArea) (line : Line) (r first_row count : ℕ) where
  pub rows-show_segments :
      (i : ℕ) (segs : List (ℕ × ℕ)) (rows : List Line) (cursor : ℕ × ℕ)
      → (show_segments ta line r first_row count i segs rows cursor).0 ≡ rows ++ rows_of line segs
  unfolding show_segments rows_of
  rows-show_segments i [] rows cursor = sym (append-nil rows)
  rows-show_segments i ((a, b) ∷ segs) rows cursor =
      rows-show_segments (i + 1) segs (rows ++ slice a b line ∷ []) _
      ∙ append_assoc rows (slice a b line ∷ []) (rows_of line segs)

pub concat-rows_of :
    (width : ℕ) (line : Line) (a c : ℕ) (segs : List (ℕ × ℕ))
    → Tiles width a c segs
    → (concat (rows_of line segs) ≡ slice a c line) × (a ≤ c)
unfolding rows_of
concat-rows_of width line a c [] e = (rw (e, slice_self c line) refl, omega arith)
concat-rows_of width line a c ((a', b) ∷ segs) (e, le, _, t) =
    let (ih, le') = concat-rows_of width line b c segs t in
    (rw (e, ih) (slice-append a b c line (omega arith) le'), omega arith)

width-rows_of :
    (width : ℕ) (line : Line) (a c : ℕ) (segs : List (ℕ × ℕ))
    → Tiles width a c segs
    → All (λ row. length row ≤ width) (rows_of line segs)
unfolding rows_of
width-rows_of width line a c [] e = tt
width-rows_of width line a c ((a', b) ∷ segs) (e, le, fits, t) =
    (omega (arith, length-slice-le a' b line), width-rows_of width line b c segs t)

pub take-all : (n : ℕ) (l : Line) → n ≡ length l → take n l ≡ l
take-all n l e = subst (λ (xs : Line). take n xs ≡ l) (append-nil l) (take-append l [] n e)

pub concat-segments :
    (width : ℕ) (line : Line) → 0 < width → concat (rows_of line (wrap_segments line width)) ≡ line
concat-segments width line pos =
    (concat-rows_of width line 0 (length line) _ (wrap_segments-Tiles line width pos)).0
    ∙ take-all (length line - 0) line (omega arith)

module _ (ta : TextArea) (width : ℕ) (pos : 0 < width) where
  concat-show_lines :
      (r : ℕ) (lines rows : List Line) (cursor : ℕ × ℕ)
      → concat (show_lines ta width r lines rows cursor).0 ≡ concat rows ++ concat lines
  unfolding show_lines
  concat-show_lines r [] rows cursor = sym (append-nil (concat rows))
  concat-show_lines r (line ∷ lines) rows cursor =
      concat-show_lines (r + 1) lines _ _
      ∙ rw
          (
            rows-show_segments ta line r (length rows) _ 0 (wrap_segments line width) rows cursor,
            concat-append,
            concat-segments width line pos,
            append_assoc,
          )
          refl

  width-show_lines :
      (r : ℕ) (lines rows : List Line) (cursor : ℕ × ℕ)
      → All (λ row. length row ≤ width) rows
      → All (λ row. length row ≤ width) (show_lines ta width r lines rows cursor).0
  unfolding show_lines
  width-show_lines r [] rows cursor h = h
  width-show_lines r (line ∷ lines) rows cursor h = width-show_lines (r + 1) lines _ _ (
      rw (rows-show_segments ta line r (length rows) _ 0 (wrap_segments line width) rows cursor) (
        All-append _ rows (rows_of line (wrap_segments line width)) h
          (width-rows_of width line 0 (length line) _ (wrap_segments-Tiles line width pos))))

width_pos : (width : ℕ) → 0 < max width 1
width_pos width = omega arith

-- Wrapping loses no character and adds none: the rows put together are the lines put together.
pub concat-display : (ta : TextArea) (width : ℕ) → concat (display ta width).0 ≡ concat ta.lines
unfolding display
concat-display ta width =
    keeps (show_lines ta (max width 1) 0 ta.lines [] (0, 0)).0
    ∙ concat-show_lines ta (max width 1) (width_pos width) 0 ta.lines [] (0, 0)
  where
    keeps : (rows : List Line) → concat (or_one_row rows) ≡ concat rows
    keeps [] = refl
    keeps (l ∷ ls) = refl

-- No row is wider than asked for, a width of 0 counting as 1.
pub display-width :
    (ta : TextArea) (width : ℕ) → All (λ row. length row ≤ max width 1) (display ta width).0
unfolding display
display-width ta width =
    keeps _ (width-show_lines ta (max width 1) (width_pos width) 0 ta.lines [] (0, 0) tt)
  where
    keeps :
        (rows : List Line)
        → All (λ row. length row ≤ max width 1) rows
        → All (λ row. length row ≤ max width 1) (or_one_row rows)
    keeps [] h = (omega arith, tt)
    keeps (l ∷ ls) h = h
