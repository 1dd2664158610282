-- ===== src/TextArea/Flat.antt =====
-- What the buffer of src/app/textarea.rs promises: one text with a cursor in it.
use bbs_rs.Prelude.{
  ℕ, zero, suc, ◌≤◌, ◌≡◌, refl, sym, List, [], ◌∷◌, ◌++◌, reverse, append-nil, append_assoc,
  reverse-append, reverse-cons, reverse-reverse, Option, none, some, length, get_elem?, take, drop,
  length-reverse, get_elem?-append-cons, take-append, drop-append, split_at_elem, length-take,
  take-drop, lt-length_of_get_elem?, length-append, arith,
}
use mathlib.Core.List.{tail}
use bbs_rs.TextArea.{
  Line, newline, TextArea, join_lines, text, Edit, type, enter, rub_out, del, go_left, go_right,
  go_up, go_down, go_home, go_end,
}
use bbs_rs.TextArea.View.{View, the_line, plug, act_view}

-- The text before the cursor, nearest first, and the text behind it.
pub record Buffer : Type 0 where
  pub past : List ℕ
  pub future : List ℕ

abbrev pub whole : Buffer → List ℕ
whole b = reverse b.past ++ b.future

abbrev pub buffer_of : List ℕ → List ℕ → Buffer
buffer_of past future = record { past = past; future = future }

-- What a key does to the text: a line break is one character, and a motion over lines keeps it.
abbrev pub Follows : Edit → Buffer → Buffer → Type 0
Follows (type c) b b' = b' ≡ buffer_of (c ∷ b.past) b.future
Follows enter b b' = b' ≡ buffer_of (newline ∷ b.past) b.future
Follows rub_out b b' = b' ≡ buffer_of (tail b.past) b.future
Follows del b b' = b' ≡ buffer_of b.past (tail b.future)
Follows go_left b b' = b' ≡ elim b.past [ [] ↦ b | c ∷ past ↦ buffer_of past (c ∷ b.future) ]
Follows go_right b b' = b' ≡ elim b.future [ [] ↦ b | c ∷ future ↦ buffer_of (c ∷ b.past) future ]
Follows go_up b b' = whole b' ≡ whole b
Follows go_down b b' = whole b' ≡ whole b
Follows go_home b b' = whole b' ≡ whole b
Follows go_end b b' = whole b' ≡ whole b

-- The lines above the cursor's with their breaks, read backwards; and the lines below.
abbrev led : List Line → List ℕ
led [] = []
led (l ∷ ls) = newline ∷ reverse l ++ led ls

abbrev fed : List Line → List ℕ
fed [] = []
fed (l ∷ ls) = newline ∷ l ++ fed ls

abbrev pub flat : View → Buffer
flat v = buffer_of (v.before ++ led v.above) (v.behind ++ fed v.below)

ended : List Line → List ℕ
ended [] = []
ended (l ∷ ls) = l ++ newline ∷ ended ls

ended-append : (xs ys : List Line) → ended (xs ++ ys) ≡ ended xs ++ ended ys
unfolding ended
ended-append [] ys = refl
ended-append (x ∷ xs) ys = simp (ended-append xs ys, append_assoc)

ended-reverse : (ls : List Line) → reverse (led ls) ≡ ended (reverse ls)
unfolding ended
ended-reverse [] = refl
ended-reverse (l ∷ ls) =
    simp
      (reverse-cons, reverse-append, reverse-reverse, ended-append, ended-reverse ls, append_assoc)

join_lines-cons : (l : Line) (ls : List Line) → join_lines (l ∷ ls) ≡ l ++ fed ls
unfolding join_lines
join_lines-cons l [] = sym (append-nil l)
join_lines-cons l (m ∷ ls) = rw (join_lines-cons m ls) refl

join_lines-append :
    (xs : List Line) (l : Line) (ls : List Line)
    → join_lines (xs ++ l ∷ ls) ≡ ended xs ++ l ++ fed ls
unfolding join_lines ended
join_lines-append [] l ls = join_lines-cons l ls
join_lines-append (x ∷ []) l ls = rw (join_lines-cons l ls) (simp append_assoc)
join_lines-append (x ∷ y ∷ xs) l ls = rw (join_lines-append (y ∷ xs) l ls) (simp append_assoc)

-- The flat text is the buffer's text.
pub whole-flat : (v : View) → text (plug v) ≡ whole (flat v)
unfolding text
whole-flat v =
    rw (join_lines-append (reverse v.above) (the_line v) v.below)
      (simp (reverse-append, ended-reverse, append_assoc))

take-drop-append : (n : ℕ) (xs ys : List ℕ) → take n xs ++ (drop n xs ++ ys) ≡ xs ++ ys
take-drop-append n xs ys = rw (← append_assoc, take-drop) refl

abbrev mk : List Line → Line → Line → List Line → View
mk above before behind below = record {
  above = above;
  before = before;
  behind = behind;
  below = below;
}

ruleset regroup = (reverse-cons, reverse-append, reverse-reverse, append_assoc, append-nil)

flat-act_view_parts :
    (e : Edit) (a : List Line) (b h : Line) (w : List Line)
    → Follows e (flat (mk a b h w)) (flat (act_view (mk a b h w) e))
unfolding act_view
flat-act_view_parts (type c) a b h w = refl
flat-act_view_parts enter a b h w = simp regroup
flat-act_view_parts rub_out a (c ∷ b) h w = refl
flat-act_view_parts rub_out (l ∷ a) [] h w = refl
flat-act_view_parts rub_out [] [] h w = refl
flat-act_view_parts del a b (c ∷ h) w = refl
flat-act_view_parts del a b [] (l ∷ w) = refl
flat-act_view_parts del a b [] [] = refl
flat-act_view_parts go_left a (c ∷ b) h w = refl
flat-act_view_parts go_left (l ∷ a) [] h w = refl
flat-act_view_parts go_left [] [] h w = refl
flat-act_view_parts go_right a b (c ∷ h) w = refl
flat-act_view_parts go_right a b [] (l ∷ w) = simp regroup
flat-act_view_parts go_right a b [] [] = refl
flat-act_view_parts go_up (l ∷ a) b h w = simp (regroup, take-drop-append)
flat-act_view_parts go_up [] b h w = refl
flat-act_view_parts go_down a b h (l ∷ w) = simp (regroup, take-drop-append)
flat-act_view_parts go_down a b h [] = refl
flat-act_view_parts go_home a b h w = simp regroup
flat-act_view_parts go_end a b h w = simp regroup

-- Every key does to the flat text what `Follows` says.
pub flat-act_view : (v : View) (e : Edit) → Follows e (flat v) (flat (act_view v e))
flat-act_view v e = flat-act_view_parts e v.above v.before v.behind v.below

-- The cursor lies on a line, and within it.
abbrev pub IsValid : TextArea → Type 0
IsValid ta = (l : Line) × (get_elem? ta.lines ta.row ≡ some l) × (ta.col ≤ length l)

abbrev line_or_nil : Option Line → Line
line_or_nil none = []
line_or_nil (some l) = l

unfoldable pub view : TextArea → View
view ta =
    let l = line_or_nil (get_elem? ta.lines ta.row) in
    record {
      above = reverse (take ta.row ta.lines);
      before = reverse (take ta.col l);
      behind = drop ta.col l;
      below = drop (suc ta.row) ta.lines;
    }

pub plug-IsValid : (v : View) → IsValid (plug v)
plug-IsValid v = (
  the_line v,
  get_elem?-append-cons (reverse v.above) v.below (the_line v) (length v.above)
      (sym (length-reverse v.above)),
  omega (arith, length-append (reverse v.before) v.behind, length-reverse v.before),
)

-- A valid buffer is the one that its view describes.
pub plug-view : (ta : TextArea) → IsValid ta → plug (view ta) ≡ ta
unfolding view
plug-view ta (l, e, h) =
    rw
      (
        e,
        reverse-reverse,
        reverse-reverse,
        length-reverse,
        length-reverse,
        take-drop,
        ← split_at_elem ta.lines ta.row e,
        length-take ta.row ta.lines row_fits,
        length-take ta.col l h,
      )
      refl
  where
    row_fits : ta.row ≤ length ta.lines
    row_fits = omega (arith, lt-length_of_get_elem? ta.lines ta.row e)

drop-suc-append-cons :
    (xs ys : List Line) (l : Line) (n : ℕ) → n ≡ length xs → drop (suc n) (xs ++ l ∷ ys) ≡ ys
drop-suc-append-cons [] ys l zero e = refl
drop-suc-append-cons [] ys l (suc n) e = absurd (omega arith)
drop-suc-append-cons (x ∷ xs) ys l zero e = absurd (omega arith)
drop-suc-append-cons (x ∷ xs) ys l (suc n) e = drop-suc-append-cons xs ys l n (omega arith)

pub view-plug : (v : View) → view (plug v) ≡ v
unfolding view
view-plug v =
    rw
      (
        get_elem?-append-cons (reverse v.above) v.below (the_line v) _
            (sym (length-reverse v.above)),
        take-append (reverse v.above) (the_line v ∷ v.below) _ (sym (length-reverse v.above)),
        drop-suc-append-cons (reverse v.above) v.below (the_line v) _
            (sym (length-reverse v.above)),
        take-append (reverse v.before) v.behind _ (sym (length-reverse v.before)),
        drop-append (reverse v.before) v.behind _ (sym (length-reverse v.before)),
        reverse-reverse,
        reverse-reverse,
      )
      refl
