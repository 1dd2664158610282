-- ===== src/TextArea/Wrap.antt =====
-- `display` and `wrap_segments` of src/app/textarea.rs: word wrap, and where the cursor lands.
pub mod Tiles
pub mod Rows
pub mod Cursor
use mathlib.Core.Option
use mathlib.Core.List.{flatten}
use bbs_rs.Prelude.{
  ℕ, zero, suc, ◌+◌, ◌-◌, ◌≤◌, ◌<◌, ◌≡◌, refl, sym, ap, ◌∙◌, ◌⊎◌, inl, inr, Bool, true, false, ◌&&◌,
  ◌||◌, List, [], ◌∷◌, ◌++◌, append-nil, append_assoc, Option, none, some, max, length, take, drop,
  length-take, take-drop, All, All-append, ltb, leb, ◌==◌, if◌then◌else◌, Bool-cases, Option-cases,
  arith,
}
use bbs_rs.TextArea.{Line, TextArea}

abbrev pub space : ℕ
space = 32

-- `line[start..end]`
abbrev pub slice : ℕ → ℕ → Line → Line
slice start end line = take (end - start) (drop start line)

-- `rposition(|c| *c == ' ')`
pub last_space : Line → Option ℕ
last_space [] = none
last_space (c ∷ cs) = elim (last_space cs) [
  | some i ↦ some (suc i)
  | none ↦ if c == space then some 0 else none
]

-- The end of the segment that begins at `start`, where the rest of the line is too wide.
pub break_after : ℕ → Line → ℕ → ℕ
unfolding last_space
break_after width line start =
    let hard_end = start + width in
    elim (Option.map (λ rel. start + rel) (last_space (slice start hard_end line))) [
      | some sp ↦ if ltb start sp then sp + 1 else hard_end
      | none ↦ hard_end
    ]

-- The `while` loop, on fuel.
pub wrap_from : ℕ → ℕ → Line → ℕ → List (ℕ × ℕ)
unfolding break_after
wrap_from zero width line start = []
wrap_from (suc fuel) width line start =
    let stop = break_after width line start in
    let rest = wrap_from fuel width line stop in
    if ltb start (length line)
    then (if leb (length line - start) width
        then (start, length line) ∷ []
        else (start, stop) ∷ rest)
    else []

-- Each round consumes a character, so the line's length is fuel enough.
unfoldable pub wrap_segments : Line → ℕ → List (ℕ × ℕ)
unfolding wrap_from
wrap_segments [] width = (0, 0) ∷ []
wrap_segments (c ∷ line) width = wrap_from (length (c ∷ line)) width (c ∷ line) 0

-- The inner loop of `display`, over the segments of line number `r`.
module _ (ta : TextArea) (line : Line) (r first_row count : ℕ) where
  pub show_segments : ℕ → List (ℕ × ℕ) → List Line → ℕ × ℕ → List Line × (ℕ × ℕ)
  show_segments seg_idx [] rows cursor = (rows, cursor)
  show_segments seg_idx ((start, end) ∷ segs) rows cursor =
      let is_last = seg_idx + 1 == count in
      let within = leb start ta.col && (ltb ta.col end || (is_last && ta.col == end)) in
      show_segments (seg_idx + 1) segs (rows ++ slice start end line ∷ [])
        (if r == ta.row && within then (first_row + seg_idx, ta.col - start) else cursor)

-- The outer loop of `display`, from line number `r`.
pub show_lines : TextArea → ℕ → ℕ → List Line → List Line → ℕ × ℕ → List Line × (ℕ × ℕ)
unfolding show_segments wrap_segments
show_lines ta width r [] rows cursor = (rows, cursor)
show_lines ta width r (line ∷ lines) rows cursor =
    let segments = wrap_segments line width in
    let (rows', cursor') =
      show_segments ta line r (length rows) (length segments) 0 segments rows cursor in
    show_lines ta width (r + 1) lines rows' cursor'

abbrev or_one_row : List Line → List Line
or_one_row [] = [] ∷ []
or_one_row (l ∷ ls) = l ∷ ls

unfoldable pub display : TextArea → ℕ → List Line × (ℕ × ℕ)
unfolding show_lines
display ta width =
    let (rows, cursor) = show_lines ta (max width 1) 0 ta.lines [] (0, 0) in
    (or_one_row rows, cursor)
