-- ===== src/TextArea/Tests.antt =====
-- Tests and instances for src/app/textarea.rs.
use bbs_rs.Prelude.{◌≤◌, ◌≡◌, refl, [], ◌∷◌, some, true, length, All, arith}
use bbs_rs.TextArea.{
  TextArea, new, from_text, text, is_empty, char_count, type, enter, rub_out, go_left, go_up, act,
}
use bbs_rs.TextArea.Flat.{whole, IsValid, Follows}
use bbs_rs.TextArea.Refinement.{buffer, act-Follows, text-buffer, run, char_count-text}
use bbs_rs.TextArea.Wrap.{wrap_segments, display}
use bbs_rs.TextArea.Wrap.Tiles.{Tiles, wrap_segments-Tiles}
use bbs_rs.TextArea.Wrap.Rows.{concat, concat-display, display-width}
use bbs_rs.TextArea.Wrap.Cursor.{Lands, display-Lands}

-- "hi" over "b", with the cursor at the start of the second line.
abbrev two_lines : TextArea
two_lines = record { lines = (104 ∷ 105 ∷ []) ∷ (98 ∷ []) ∷ []; row = 1; col = 0 }

abbrev two_lines-IsValid : IsValid two_lines
two_lines-IsValid = (98 ∷ [], refl, omega arith)

rub_out_joins :
    act two_lines rub_out ≡ some (record { lines = (104 ∷ 105 ∷ 98 ∷ []) ∷ []; row = 0; col = 2 })
unfolding act
rub_out_joins = refl

enter_splits :
    run new (type 97 ∷ type 98 ∷ go_left ∷ enter ∷ [])
    ≡ some (record { lines = (97 ∷ []) ∷ (98 ∷ []) ∷ []; row = 1; col = 0 })
unfolding run act
enter_splits = refl

up_clamps :
    run new (type 97 ∷ enter ∷ type 98 ∷ type 98 ∷ go_up ∷ [])
    ≡ some (record { lines = (97 ∷ []) ∷ (98 ∷ 98 ∷ []) ∷ []; row = 0; col = 1 })
unfolding run act
up_clamps = refl

seeded :
    from_text (97 ∷ 10 ∷ 98 ∷ 99 ∷ [])
    ≡ some (record { lines = (97 ∷ []) ∷ (98 ∷ 99 ∷ []) ∷ []; row = 1; col = 2 })
unfolding from_text
seeded = refl

fresh : is_empty new ≡ some true
unfolding is_empty
fresh = refl

-- "ab cd" at width 4 breaks behind the space, and "abcdef" is cut.
wraps :
    (wrap_segments (97 ∷ 98 ∷ 32 ∷ 99 ∷ 100 ∷ []) 4 ≡ (0, 3) ∷ (3, 5) ∷ [])
    × (wrap_segments (97 ∷ 98 ∷ 99 ∷ 100 ∷ 101 ∷ 102 ∷ []) 4 ≡ (0, 4) ∷ (4, 6) ∷ [])
unfolding wrap_segments
wraps = (refl, refl)

displayed : display two_lines 1 ≡ ((104 ∷ []) ∷ (105 ∷ []) ∷ (98 ∷ []) ∷ [], (2, 0))
unfolding display
displayed = refl

act-Follows_example :
    (ta : TextArea) × (act two_lines rub_out ≡ some ta)
    × IsValid ta
    × Follows rub_out (buffer two_lines) (buffer ta)
act-Follows_example = act-Follows two_lines rub_out two_lines-IsValid

text-buffer_example : text two_lines ≡ whole (buffer two_lines)
text-buffer_example = text-buffer two_lines two_lines-IsValid

char_count-text_example : char_count two_lines ≡ length (text two_lines)
char_count-text_example = char_count-text two_lines two_lines-IsValid

wrap_segments-Tiles_example : Tiles 4 0 5 (wrap_segments (97 ∷ 98 ∷ 32 ∷ 99 ∷ 100 ∷ []) 4)
wrap_segments-Tiles_example = wrap_segments-Tiles (97 ∷ 98 ∷ 32 ∷ 99 ∷ 100 ∷ []) 4 (omega arith)

concat-display_example : concat (display two_lines 1).0 ≡ 104 ∷ 105 ∷ 98 ∷ []
concat-display_example = concat-display two_lines 1

display-width_example : All (λ row. length row ≤ 1) (display two_lines 1).0
display-width_example = display-width two_lines 1

display-Lands_example : Lands (display two_lines 1).0 (display two_lines 1).1 (104 ∷ 105 ∷ [])
display-Lands_example = display-Lands two_lines 1 (98 ∷ []) refl (omega arith)
