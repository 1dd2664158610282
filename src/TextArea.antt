-- ===== src/TextArea.antt =====
-- src/app/textarea.rs: the multi-line text buffer of the compose editor. A character is its code
-- point. An operation is `none` where the source would panic on an index out of range.
pub mod View
pub mod Flat
pub mod Refinement
pub mod Wrap
mod Tests
use bbs_rs.Prelude.{
  ℕ, suc, ◌+◌, ◌-◌, ◌≡◌, Bool, true, false, ◌&&◌, List, [], ◌∷◌, ◌++◌, map, Option, none, some, min,
  length, get_elem?, set, insert?, remove?, split_off?, ltb, ◌==◌, ◌>>=◌, if◌then◌else◌,
}

abbrev pub Line : Type 0
Line = List ℕ

abbrev pub newline : ℕ
newline = 10

pub record TextArea : Type 0 where
  pub lines : List Line
  pub row : ℕ
  pub col : ℕ

-- `Default::default`, which `new` calls
abbrev pub new : TextArea
new = record { lines = [] ∷ []; row = 0; col = 0 }

abbrev cons_head : ℕ → List Line → List Line
cons_head c [] = (c ∷ []) ∷ []
cons_head c (l ∷ ls) = (c ∷ l) ∷ ls

-- `text.split('\n')`
pub split_lines : List ℕ → List Line
split_lines [] = [] ∷ []
split_lines (c ∷ s) = if c == newline then [] ∷ split_lines s else cons_head c (split_lines s)

-- `join("\n")`
pub join_lines : List Line → List ℕ
join_lines [] = []
join_lines (l ∷ []) = l
join_lines (l ∷ m ∷ ls) = l ++ newline ∷ join_lines (m ∷ ls)

-- the guard of `from_text` against no line at all
abbrev or_one_line : List Line → List Line
or_one_line [] = [] ∷ []
or_one_line (l ∷ ls) = l ∷ ls

pub from_text : List ℕ → Option TextArea
unfolding split_lines
from_text s = do
  let lines = or_one_line (split_lines s)
  let row = length lines - 1
  last ← get_elem? lines row
  some (record { lines = lines; row = row; col = length last })

pub text : TextArea → List ℕ
unfolding join_lines
text ta = join_lines ta.lines

pub is_empty : TextArea → Option Bool
is_empty ta =
    if length ta.lines == 1
    then (do first ← get_elem? ta.lines 0; some (length first == 0))
    else some false

abbrev sum_lengths : List Line → ℕ
sum_lengths [] = 0
sum_lengths (l ∷ ls) = length l + sum_lengths ls

pub char_count : TextArea → ℕ
char_count ta = sum_lengths ta.lines + (length ta.lines - 1)

pub insert_char : TextArea → ℕ → Option TextArea
insert_char ta c = do
  line ← get_elem? ta.lines ta.row
  line' ← insert? line ta.col c
  some (record ta { lines = set ta.lines ta.row line'; col = ta.col + 1 })

pub insert_newline : TextArea → Option TextArea
insert_newline ta = do
  line ← get_elem? ta.lines ta.row
  (kept, tail) ← split_off? line ta.col
  lines' ← insert? (set ta.lines ta.row kept) (ta.row + 1) tail
  some (record { lines = lines'; row = ta.row + 1; col = 0 })

pub backspace : TextArea → Option TextArea
backspace ta =
    if ltb 0 ta.col
    then (do
      line ← get_elem? ta.lines ta.row
      line' ← remove? line (ta.col - 1)
      some (record ta { lines = set ta.lines ta.row line'; col = ta.col - 1 }))
    else if ltb 0 ta.row
    then (do
      line ← get_elem? ta.lines ta.row
      lines' ← remove? ta.lines ta.row
      prev ← get_elem? lines' (ta.row - 1)
      some (record {
        lines = set lines' (ta.row - 1) (prev ++ line);
        row = ta.row - 1;
        col = length prev;
      }))
    else some ta

pub delete : TextArea → Option TextArea
delete ta = do
  line ← get_elem? ta.lines ta.row
  if ltb ta.col (length line)
      then (do line' ← remove? line ta.col; some (record ta { lines = set ta.lines ta.row line' }))
      else if ltb (ta.row + 1) (length ta.lines)
      then (do
        next ← get_elem? ta.lines (ta.row + 1)
        lines' ← remove? ta.lines (ta.row + 1)
        some (record ta { lines = set lines' ta.row (line ++ next) }))
      else some ta

pub left : TextArea → Option TextArea
left ta =
    if ltb 0 ta.col
    then some (record ta { col = ta.col - 1 })
    else if ltb 0 ta.row
    then (do
      prev ← get_elem? ta.lines (ta.row - 1)
      some (record ta { row = ta.row - 1; col = length prev }))
    else some ta

pub right : TextArea → Option TextArea
right ta = do
  line ← get_elem? ta.lines ta.row
  if ltb ta.col (length line)
      then some (record ta { col = ta.col + 1 })
      else if ltb (ta.row + 1) (length ta.lines)
      then some (record ta { row = ta.row + 1; col = 0 })
      else some ta

pub up : TextArea → Option TextArea
up ta =
    if ltb 0 ta.row
    then (do
      above ← get_elem? ta.lines (ta.row - 1)
      some (record ta { row = ta.row - 1; col = min ta.col (length above) }))
    else some ta

pub down : TextArea → Option TextArea
down ta =
    if ltb (ta.row + 1) (length ta.lines)
    then (do
      below ← get_elem? ta.lines (ta.row + 1)
      some (record ta { row = ta.row + 1; col = min ta.col (length below) }))
    else some ta

pub home : TextArea → TextArea
home ta = record ta { col = 0 }

pub end : TextArea → Option TextArea
end ta = do line ← get_elem? ta.lines ta.row; some (record ta { col = length line })

-- The methods by name: one keystroke of the compose editor.
pub data Edit : Type 0 where
  type : ℕ → Edit
  enter rub_out del : Edit
  go_left go_right go_up go_down go_home go_end : Edit

pub act : TextArea → Edit → Option TextArea
unfolding insert_char insert_newline backspace delete left right up down home end
act ta (type c) = insert_char ta c
act ta enter = insert_newline ta
act ta rub_out = backspace ta
act ta del = delete ta
act ta go_left = left ta
act ta go_right = right ta
act ta go_up = up ta
act ta go_down = down ta
act ta go_home = some (home ta)
act ta go_end = end ta
