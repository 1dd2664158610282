-- ===== src/Ansi/Shows.antt =====
-- src/app/ansi.rs: `to_text` shows what the plain screen shows, in the longest runs of one style.
use mathlib.Core.List.{map-append}
use bbs_rs.Prelude.{
  ℕ, suc, ◌≡◌, refl, sym, ap, ap₂, ◌∙◌, true, List, [], ◌∷◌, ◌++◌, map, some, inl, inr, Bool-cases,
  arith, Text, length, All, All-append, append_assoc, append-nil,
}
use bbs_rs.Ansi.{
  Styles, Span, Art, span, flushed, push, end_line, spans_screen, blank, with_rest, finish,
  apply_sgr, to_text, decode,
}
use bbs_rs.Ansi.Screens.{Simulates, run-Alike, run_returns}
use bbs_rs.Ansi.Cells.{
  Cell, Grid, cells_screen, empty_grid, to_cells, cells, expand, expand-append, cells-append,
  is_runs, is_filled, is_runs-snoc, is_runs-grow,
}

module _ (styles : Styles) (eq→same : (s t : styles.Style) → styles.eq s t ≡ true → s ≡ t) where
  abbrev HasRuns : List (Span styles) → Type 0
  HasRuns ss = is_runs styles ss ≡ true

  record Shows (a : Art styles) (g : Grid styles) : Type 0 where
    lines_shown : map (expand styles) a.lines ≡ g.rows
    row_shown : expand styles (flushed styles a.buf a.buf_style a.spans) ≡ g.row
    same_style : a.style ≡ g.style
    lines_run : All HasRuns a.lines
    row_runs : HasRuns (flushed styles a.buf a.buf_style a.spans)
    fresh : a.buf ≡ [] → a.spans ≡ []

  Shows-end_line :
      (a : Art styles) (g : Grid styles)
      → Shows a g
      → Shows (end_line styles a) ((cells_screen styles).newline g)
  Shows-end_line a g h =
      let line = flushed styles a.buf a.buf_style a.spans in
      record {
        lines_shown =
            map-append (expand styles) a.lines (line ∷ [])
            ∙ ap₂ (λ x y. x ++ y ∷ []) h.lines_shown h.row_shown;
        row_shown = refl;
        same_style = h.same_style;
        lines_run = All-append HasRuns a.lines (line ∷ []) h.lines_run (h.row_runs, tt);
        row_runs = refl;
        fresh = λ _. refl;
      }

  -- A span behind others shows its cells behind theirs.
  expand-last :
      (spans : List (Span styles)) (s : Text) (st : styles.Style)
      → expand styles (spans ++ span styles s st ∷ []) ≡ expand styles spans ++ cells styles s st
  expand-last spans s st =
      expand-append styles spans (span styles s st ∷ [])
      ∙ ap (expand styles spans ++◌) (append-nil (cells styles s st))

  Shows-put_on :
      (lines : List (List (Span styles))) (spans : List (Span styles)) (buf : Text)
      (buf_style style : styles.Style) (g : Grid styles) (c : ℕ)
      → let a : Art styles = record {
        lines = lines;
        spans = spans;
        buf = buf;
        buf_style = buf_style;
        style = style;
      } in
        Shows a g → Shows (push styles c a) ((cells_screen styles).put c g)
  Shows-put_on lines spans [] buf_style style g c h = record {
    lines_shown = h.lines_shown;
    row_shown =
        expand-last spans (c ∷ []) style ∙ ap₂ (λ x y. x ++ (c, y) ∷ []) h.row_shown h.same_style;
    same_style = h.same_style;
    lines_run = h.lines_run;
    row_runs = rw (h.fresh refl) refl;
    fresh = λ e. cc e;
  }
  Shows-put_on lines spans (d ∷ s) buf_style style g c h =
      elim (Bool-cases (styles.eq buf_style style)) [
        | inl same ↦
            let e = eq→same buf_style style same in
            rw same (record {
              lines_shown = h.lines_shown;
              row_shown =
                  expand-last spans (d ∷ (s ++ c ∷ [])) buf_style
                  ∙ ap (expand styles spans ++◌) (cells-append styles (d ∷ s) (c ∷ []) buf_style)
                  ∙ sym (
                      append_assoc (expand styles spans) (cells styles (d ∷ s) buf_style)
                        ((c, buf_style) ∷ []))
                  ∙ ap₂ (λ x y. x ++ (c, y) ∷ [])
                      (sym (expand-last spans (d ∷ s) buf_style) ∙ h.row_shown) (e ∙ h.same_style);
              same_style = h.same_style;
              lines_run = h.lines_run;
              row_runs =
                  is_runs-grow styles spans (d ∷ s) (d ∷ (s ++ c ∷ [])) buf_style h.row_runs refl;
              fresh = λ e. cc e;
            })
        | inr other ↦
            let first = span styles (d ∷ s) buf_style in
            rw other (record {
              lines_shown = h.lines_shown;
              row_shown =
                  expand-last (spans ++ first ∷ []) (c ∷ []) style
                  ∙ ap₂ (λ x y. x ++ (c, y) ∷ []) h.row_shown h.same_style;
              same_style = h.same_style;
              lines_run = h.lines_run;
              row_runs = rw (append_assoc spans (first ∷ []) (span styles (c ∷ []) style ∷ [])) (
                  is_runs-snoc styles spans first (span styles (c ∷ []) style) h.row_runs other
                    refl);
              fresh = λ e. cc e;
            })
      ]

  Shows-Simulates : Simulates (spans_screen styles) (cells_screen styles) Shows
  Shows-Simulates = record {
    on_newline = Shows-end_line;
    on_put = λ c a g h. Shows-put_on a.lines a.spans a.buf a.buf_style a.style g c h;
    on_sgr = λ params a g h. record {
      lines_shown = h.lines_shown;
      row_shown = h.row_shown;
      same_style = ap (apply_sgr styles params) h.same_style;
      lines_run = h.lines_run;
      row_runs = h.row_runs;
      fresh = h.fresh;
    };
  }

  Shows-blank : Shows (blank styles) (empty_grid styles)
  Shows-blank = record {
    lines_shown = refl;
    row_shown = refl;
    same_style = refl;
    lines_run = tt;
    row_runs = refl;
    fresh = λ _. refl;
  }

  is_filled-first :
      (x : Span styles) (xs : List (Span styles)) → HasRuns (x ∷ xs) → is_filled styles x ≡ true
  is_filled-first x [] h = h
  is_filled-first x (y ∷ xs) h = ground (arith, h)

  with_rest-cells :
      (rows : List (List (Cell styles))) (s : Text) (st : styles.Style) (row : List (Cell styles))
      → is_filled styles (span styles s st) ≡ true
      → rows ++ (cells styles s st ++ row) ∷ [] ≡ with_rest styles rows (cells styles s st ++ row)
  with_rest-cells rows [] st row h = cc h
  with_rest-cells rows (c ∷ s) st row h = refl

  with_rest-shown :
      (lines : List (List (Span styles))) (spans : List (Span styles))
      → HasRuns spans
      → map (expand styles) (with_rest styles lines spans)
        ≡ with_rest styles (map (expand styles) lines) (expand styles spans)
  with_rest-shown lines [] h = refl
  with_rest-shown lines (x ∷ xs) h =
      map-append (expand styles) lines ((x ∷ xs) ∷ [])
      ∙ with_rest-cells (map (expand styles) lines) x.content x.style (expand styles xs)
          (is_filled-first x xs h)

  with_rest-All :
      (lines : List (List (Span styles))) (spans : List (Span styles))
      → HasRuns spans
      → All HasRuns lines
      → All HasRuns (with_rest styles lines spans)
  with_rest-All lines [] h hs = hs
  with_rest-All lines (x ∷ xs) h hs = All-append HasRuns lines ((x ∷ xs) ∷ []) hs (h, tt)

  -- The styled lines of an art file exist, hold cell by cell what a screen shows that writes each
  -- character in the style then set, and are cut into the longest runs: no span is empty and two
  -- neighbours differ in style. Two styles that compare equal are taken to be equal.
  pub to_text-to_cells :
      (bytes : List ℕ)
      → (lines : List (List (Span styles))) × (to_text styles bytes ≡ some lines)
        × (to_cells styles bytes ≡ some (map (expand styles) lines))
        × All HasRuns lines
  unfolding to_text to_cells
  to_text-to_cells bytes =
      let chars = decode bytes in
      let f = suc (length chars) in
      let (a, ends) = run_returns (spans_screen styles) f chars (blank styles) (omega arith) in
      let (g, shown, h) =
        run-Alike (spans_screen styles) (cells_screen styles) Shows Shows-Simulates f chars
          (blank styles) (empty_grid styles) Shows-blank a ends in
      let spans = flushed styles a.buf a.buf_style a.spans in
      (
        finish styles a,
        rw ends refl,
        rw shown (
            ap some (
              ap₂ (with_rest styles) (sym h.lines_shown) (sym h.row_shown)
              ∙ sym (with_rest-shown a.lines spans h.row_runs))),
        with_rest-All a.lines spans h.row_runs h.lines_run,
      )
