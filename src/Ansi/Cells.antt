-- ===== src/Ansi/Cells.antt =====
-- src/app/ansi.rs: the spans of a line against a screen that keeps every character in its style.
use bbs_rs.Prelude.{
  ℕ, suc, ◌≡◌, refl, sym, ap, ◌∙◌, Bool, true, false, not, ◌&&◌, List, [], ◌∷◌, ◌++◌, Option, some,
  ◌>>=◌, arith, Text, length, append_assoc,
}
use bbs_rs.Ansi.{Screen, Styles, Span, span, with_rest, run, apply_sgr, decode}

module _ (styles : Styles) where
  -- A character in its style
  abbrev pub Cell : Type 0
  Cell = ℕ × styles.Style

  pub record Grid : Type 0 where
    pub rows : List (List Cell)
    pub row : List Cell
    pub style : styles.Style

  -- The plain screen: it writes each character down in the style that is set, with no buffer.
  abbrev pub cells_screen : Screen Grid
  cells_screen = record {
    newline = λ g. record g { rows = g.rows ++ g.row ∷ []; row = [] };
    put = λ c g. record g { row = g.row ++ (c, g.style) ∷ [] };
    sgr = λ params g. record g { style = apply_sgr styles params g.style };
  }

  abbrev pub empty_grid : Grid
  empty_grid = record { rows = []; row = []; style = styles.plain }

  -- What `to_text` is meant to show.
  unfoldable pub to_cells : List ℕ → Option (List (List Cell))
  to_cells bytes =
      let chars = decode bytes in
      run cells_screen (suc (length chars)) chars empty_grid >>= λ g.
      some (with_rest styles g.rows g.row)

  abbrev pub cells : Text → styles.Style → List Cell
  cells [] st = []
  cells (c ∷ s) st = (c, st) ∷ cells s st

  abbrev pub expand : List (Span styles) → List Cell
  expand [] = []
  expand (s ∷ ss) = cells s.content s.style ++ expand ss

  -- No span is empty, and two neighbours differ in style.
  abbrev pub is_filled : Span styles → Bool
  is_filled s = elim s.content [ [] ↦ false | _ ∷ _ ↦ true ]

  abbrev pub is_runs : List (Span styles) → Bool
  is_runs [] = true
  is_runs (s ∷ []) = is_filled s
  is_runs (s ∷ t ∷ ss) = is_filled s && not (styles.eq s.style t.style) && is_runs (t ∷ ss)

  pub expand-append : (xs ys : List (Span styles)) → expand (xs ++ ys) ≡ expand xs ++ expand ys
  expand-append [] ys = refl
  expand-append (s ∷ xs) ys =
      ap (cells s.content s.style ++◌) (expand-append xs ys)
      ∙ sym (append_assoc (cells s.content s.style) (expand xs) (expand ys))

  pub cells-append : (s t : Text) (st : styles.Style) → cells (s ++ t) st ≡ cells s st ++ cells t st
  cells-append [] t st = refl
  cells-append (c ∷ s) t st = ap ((c, st) ∷◌) (cells-append s t st)

  pub is_runs-snoc :
      (xs : List (Span styles)) (s t : Span styles)
      → is_runs (xs ++ s ∷ []) ≡ true
      → styles.eq s.style t.style ≡ false
      → is_filled t ≡ true
      → is_runs (xs ++ s ∷ t ∷ []) ≡ true
  is_runs-snoc [] s t h d f = ground (arith, h, d, f)
  is_runs-snoc (x ∷ []) s t h d f = ground (arith, h, d, f)
  is_runs-snoc (x ∷ y ∷ xs) s t h d f =
      let rest = is_runs-snoc (y ∷ xs) s t (ground (arith, h)) d f in ground (arith, h, rest)

  -- The last span may grow.
  pub is_runs-grow :
      (xs : List (Span styles)) (s t : Text) (st : styles.Style)
      → is_runs (xs ++ span styles s st ∷ []) ≡ true
      → is_filled (span styles t st) ≡ true
      → is_runs (xs ++ span styles t st ∷ []) ≡ true
  is_runs-grow [] s t st h f = f
  is_runs-grow (x ∷ []) s t st h f = ground (arith, h, f)
  is_runs-grow (x ∷ y ∷ xs) s t st h f =
      let rest = is_runs-grow (y ∷ xs) s t st (ground (arith, h)) f in ground (arith, h, rest)
