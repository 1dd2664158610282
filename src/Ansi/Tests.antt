-- ===== src/Ansi/Tests.antt =====
-- src/app/ansi.rs: the module's tests, on a concrete style.
use bbs_rs.Prelude.{
  ℕ, ◌≡◌, refl, true, List, [], ◌∷◌, ◌++◌, map, some, text_eq, text_eq→eq, Text, codes, All,
}
use bbs_rs.Input.{utf8_len, from_utf8}
use bbs_rs.Ansi.{Styles, Color, red, rgb, indexed, Span, run, to_text}
use bbs_rs.Ansi.Cells.{to_cells, expand, is_runs}
use bbs_rs.Ansi.Shows.{to_text-to_cells}

-- A style as the list of what was set, the newest first
abbrev painted : Color → Text
painted red = codes "red"
painted (rgb r g b) = r ∷ g ∷ b ∷ []
painted (indexed n) = n ∷ []
painted _ = codes "other"

abbrev inks : Styles
inks = record {
  Style = Text;
  plain = [];
  add_bold = λ s. b'*' ∷ s;
  remove_bold = λ s. b'-' ∷ s;
  fg = λ c s. painted c;
  bg = λ c s. b'#' ∷ painted c;
  eq = text_eq;
}

abbrev show : Text → Text → Span inks
show s st = record { content = s; style = st }

sgr_sets_color_runs :
    to_text inks (0x1B ∷ codes "[31mhi" ++ 0x1B ∷ codes "[0m there")
    ≡ some ((show (codes "hi") (codes "red") ∷ show (codes " there") [] ∷ []) ∷ [])
unfolding to_text run utf8_len from_utf8
sgr_sets_color_runs = refl

cursor_moves_are_ignored :
    to_text inks (0x1B ∷ codes "[2J" ++ 0x1B ∷ codes "[10;5Hok")
    ≡ some ((show (codes "ok") [] ∷ []) ∷ [])
unfolding to_text run utf8_len from_utf8
cursor_moves_are_ignored = refl

cp437_high_bytes : to_text inks (0xC9 ∷ 0xCD ∷ 0xBB ∷ []) ≡ some ((show (codes "╔═╗") [] ∷ []) ∷ [])
unfolding to_text run utf8_len from_utf8
cp437_high_bytes = refl

truecolor_and_indexed :
    to_text inks (0x1B ∷ codes "[38;2;255;136;0mX" ++ 0x1B ∷ codes "[38;5;200mY")
    ≡ some ((show (codes "X") (255 ∷ 136 ∷ 0 ∷ []) ∷ show (codes "Y") (200 ∷ []) ∷ []) ∷ [])
unfolding to_text run utf8_len from_utf8
truecolor_and_indexed = refl

abbrev art : List ℕ
art = 0x1B ∷ codes "[31mh" ++ 0x1B ∷ codes "[31mi\nx" ++ 0x1B ∷ codes "[1my"

to_text-to_cells_example :
    (lines : List (List (Span inks))) × (to_text inks art ≡ some lines)
    × (to_cells inks art ≡ some (map (expand inks) lines))
    × All (λ ss. is_runs inks ss ≡ true) lines
to_text-to_cells_example = to_text-to_cells inks (λ s t e. text_eq→eq s t e) art
