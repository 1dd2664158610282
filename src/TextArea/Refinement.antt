-- ===== src/TextArea/Refinement.antt =====
-- The buffer of src/app/textarea.rs implements a flat text with a cursor.
use bbs_rs.Prelude.{
  ℕ, ◌+◌, ◌-◌, ◌≡◌, refl, sym, ap, ◌∙◌, List, [], ◌∷◌, ◌++◌, reverse, append-nil, Option, some,
  length, get_elem?, length-append, reverse-reverse, arith, ◌>>=◌, ◌==◌, ==_iff, Bool-cases, inl,
  inr, get_elem?-append-cons, length-reverse,
}
use bbs_rs.TextArea.{
  Line, newline, TextArea, new, or_one_line, split_lines, join_lines, from_text, text, sum_lengths,
  char_count, cons_head, Edit, act,
}
use bbs_rs.TextArea.View.{View, plug, act_view, act-plug}
use bbs_rs.TextArea.Flat.{
  Buffer, whole, flat, Follows, IsValid, view, flat-act_view, plug-IsValid, plug-view, view-plug,
  whole-flat,
}

-- The abstract value of a buffer.
pub buffer : TextArea → Buffer
buffer ta = flat (view ta)

-- On a buffer whose cursor is in range no key panics, the cursor stays in range, and the text and
-- the cursor change as `Follows` says of a flat text in which a line break is one character:
-- typing, Enter, backspace, delete, left and right exactly, and the other motions keep the text.
pub act-Follows :
    (ta : TextArea) (e : Edit)
    → IsValid ta
    → (ta' : TextArea) × (act ta e ≡ some ta') × IsValid ta' × Follows e (buffer ta) (buffer ta')
unfolding buffer
act-Follows ta e h =
    let v = view ta in
    (
      plug (act_view v e),
      rw (plug-view ta h) at (act-plug v e),
      plug-IsValid (act_view v e),
      rw (view-plug (act_view v e)) (flat-act_view v e),
    )

-- The text of a valid buffer is what lies before the cursor and what lies behind it.
pub text-buffer : (ta : TextArea) → IsValid ta → text ta ≡ whole (buffer ta)
unfolding buffer
text-buffer ta h = rw (plug-view ta h) at (whole-flat (view ta))

-- A session of the compose editor.
unfoldable pub run : TextArea → List Edit → Option TextArea
run ta [] = some ta
run ta (e ∷ es) = do ta' ← act ta e; run ta' es

new-IsValid : IsValid new
new-IsValid = ([], refl, omega arith)

run_of_IsValid :
    (ta : TextArea) (es : List Edit)
    → IsValid ta
    → (ta' : TextArea) × (run ta es ≡ some ta') × IsValid ta'
unfolding run
run_of_IsValid ta [] h = (ta, refl, h)
run_of_IsValid ta (e ∷ es) h =
    let (t, done, valid, _) = act-Follows ta e h in
    let (u, rest, valid') = run_of_IsValid t es valid in (u, rw (done, rest) refl, valid')

-- From the empty buffer no sequence of keys panics, and the cursor is in range at the end.
pub run-new : (es : List Edit) → (ta : TextArea) × (run new es ≡ some ta) × IsValid ta
run-new es = run_of_IsValid new es new-IsValid

join_lines-cons_head : (c : ℕ) (ls : List Line) → join_lines (cons_head c ls) ≡ c ∷ join_lines ls
unfolding join_lines
join_lines-cons_head c [] = refl
join_lines-cons_head c (l ∷ []) = refl
join_lines-cons_head c (l ∷ m ∷ ls) = refl

-- `split` always gives a line, the last of which is the cursor's.
split_lines_last : (s : List ℕ) → (ini : List Line) × (l : Line) × (split_lines s ≡ ini ++ l ∷ [])
unfolding split_lines
split_lines_last [] = ([], [], refl)
split_lines_last (c ∷ s) = elim (Bool-cases (c == newline)) [
  | inl brk ↦ let (ini, l, e) = split_lines_last s in ([] ∷ ini, l, rw (brk, e) refl)
  | inr same ↦ rw same (longer (split_lines_last s))
]
  where
    longer :
        ((ini : List Line) × (l : Line) × (split_lines s ≡ ini ++ l ∷ []))
        → (ini : List Line) × (l : Line) × (cons_head c (split_lines s) ≡ ini ++ l ∷ [])
    longer ([], l, e) = ([], c ∷ l, rw e refl)
    longer (k ∷ ini, l, e) = ((c ∷ k) ∷ ini, l, rw e refl)

join_lines-break :
    (ini : List Line) (l : Line)
    → join_lines ([] ∷ (ini ++ l ∷ [])) ≡ newline ∷ join_lines (ini ++ l ∷ [])
unfolding join_lines
join_lines-break [] l = refl
join_lines-break (k ∷ ini) l = refl

pub join_lines-split_lines : (s : List ℕ) → join_lines (split_lines s) ≡ s
unfolding split_lines
join_lines-split_lines [] = unfold join_lines in refl
join_lines-split_lines (c ∷ s) = elim (Bool-cases (c == newline)) [
  | inl brk ↦
      let (ini, l, e) = split_lines_last s in
      rw (brk, e, join_lines-break ini l, ← e, join_lines-split_lines s, (==_iff c newline).0 brk)
        refl
  | inr same ↦ rw (same, join_lines-cons_head c (split_lines s), join_lines-split_lines s) refl
]

or_one_line-append : (ini : List Line) (l : Line) → or_one_line (ini ++ l ∷ []) ≡ ini ++ l ∷ []
or_one_line-append [] l = refl
or_one_line-append (k ∷ ini) l = refl

last_row : (ini : List Line) (l : Line) → length (ini ++ l ∷ []) - 1 ≡ length ini
last_row ini l = omega (arith, length-append ini (l ∷ []))

-- The view that `from_text` makes of the lines `ini ++ l ∷ []`.
abbrev at_end : List Line → Line → View
at_end ini l = record { above = reverse ini; before = reverse l; behind = []; below = [] }

plug-at_end :
    (ini : List Line) (l : Line)
    → plug (at_end ini l) ≡ record { lines = ini ++ l ∷ []; row = length ini; col = length l }
plug-at_end ini l = simp (reverse-reverse, append-nil, length-reverse)

from_text-at_end :
    (s : List ℕ) (ini : List Line) (l : Line)
    → split_lines s ≡ ini ++ l ∷ []
    → from_text s ≡ some (plug (at_end ini l))
unfolding from_text
from_text-at_end s ini l e =
    rw
      (
        e,
        or_one_line-append ini l,
        last_row ini l,
        get_elem?-append-cons ini [] l (length ini) refl,
        plug-at_end ini l,
      )
      refl

-- Opening a draft does not panic, loses nothing of it, and puts the cursor at its end.
pub text-from_text :
    (s : List ℕ)
    → (ta : TextArea) × (from_text s ≡ some ta)
      × IsValid ta
      × (text ta ≡ s)
      × ((buffer ta).future ≡ [])
unfolding buffer text
text-from_text s =
    let (ini, l, e) = split_lines_last s in
    (
      plug (at_end ini l),
      from_text-at_end s ini l e,
      plug-IsValid (at_end ini l),
      ap (λ (t : TextArea). join_lines t.lines) (plug-at_end ini l)
          ∙ rw (← e) (join_lines-split_lines s),
      rw view-plug refl,
    )

length-join_lines :
    (l : Line) (ls : List Line)
    → length (join_lines (l ∷ ls)) ≡ sum_lengths (l ∷ ls) + (length (l ∷ ls) - 1)
unfolding join_lines
length-join_lines l [] = omega arith
length-join_lines l (m ∷ ls) =
    omega (arith, length-append l (newline ∷ join_lines (m ∷ ls)), length-join_lines m ls)

-- `char_count` is the length of the text that would be sent, line breaks included.
pub char_count-text : (ta : TextArea) → IsValid ta → char_count ta ≡ length (text ta)
unfolding char_count text
char_count-text ta (l, e, _) = by_lines ta.lines e
  where
    by_lines :
        (ls : List Line)
        → get_elem? ls ta.row ≡ some l
        → sum_lengths ls + (length ls - 1) ≡ length (join_lines ls)
    by_lines [] e' = cc
    by_lines (k ∷ ls) e' = sym (length-join_lines k ls)
