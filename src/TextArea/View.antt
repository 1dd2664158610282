-- ===== src/TextArea/View.antt =====
-- The buffer of src/app/textarea.rs taken apart at the cursor, and each operation on the parts.
use bbs_rs.Prelude.{
  ℕ, suc, ◌+◌, ◌-◌, ◌≡◌, refl, sym, List, [], ◌∷◌, ◌++◌, reverse, append-nil, append_assoc,
  reverse-cons, reverse-reverse, some, min, length, get_elem?, set, take, drop, remove?,
  length-append, length-reverse, get_elem?-append-cons, set-append-cons, insert?-append,
  remove?-append-cons, split_off?-append, get_elem?-append-next, remove?-append-next,
  insert?-append-next, length-take, take-drop, ltb, lt→ltb, le→not-ltb, true, false, arith,
}
use native.Mathlib.Numerals.{add-one}
use bbs_rs.TextArea.{
  Line, TextArea, Edit, type, enter, rub_out, del, go_left, go_right, go_up, go_down, go_home,
  go_end, act,
}

-- The lines above the cursor's, nearest first; the cursor's line before it, nearest first, and
-- behind it; and the lines below.
pub record View : Type 0 where
  pub above : List Line
  pub before : Line
  pub behind : Line
  pub below : List Line

abbrev pub the_line : View → Line
the_line v = reverse v.before ++ v.behind

abbrev pub plug : View → TextArea
plug v = record {
  lines = reverse v.above ++ the_line v ∷ v.below;
  row = length v.above;
  col = length v.before;
}

-- The view with column `n` of the line `l`.
abbrev pub at_col : List Line → ℕ → Line → List Line → View
at_col above n l below = record {
  above = above;
  before = reverse (take n l);
  behind = drop n l;
  below = below;
}

unfoldable pub act_view : View → Edit → View
act_view v (type c) = record v { before = c ∷ v.before }
act_view v enter = record v { above = reverse v.before ∷ v.above; before = [] }
act_view v rub_out = elim v.before [
  | c ∷ b ↦ record v { before = b }
  | [] ↦ elim v.above [ l ∷ above ↦ record v { above = above; before = reverse l } | [] ↦ v ]
]
act_view v del = elim v.behind [
  | c ∷ b ↦ record v { behind = b }
  | [] ↦ elim v.below [ l ∷ below ↦ record v { behind = l; below = below } | [] ↦ v ]
]
act_view v go_left = elim v.before [
  | c ∷ b ↦ record v { before = b; behind = c ∷ v.behind }
  | [] ↦ elim v.above [
    | l ∷ above ↦ record {
      above = above;
      before = reverse l;
      behind = [];
      below = the_line v ∷ v.below;
    }
    | [] ↦ v
  ]
]
act_view v go_right = elim v.behind [
  | c ∷ b ↦ record v { before = c ∷ v.before; behind = b }
  | [] ↦ elim v.below [
    | l ∷ below ↦ record { above = the_line v ∷ v.above; before = []; behind = l; below = below }
    | [] ↦ v
  ]
]
act_view v go_up = elim v.above [
  | l ∷ above ↦ at_col above (min (length v.before) (length l)) l (the_line v ∷ v.below)
  | [] ↦ v
]
act_view v go_down = elim v.below [
  | l ∷ below ↦ at_col (the_line v ∷ v.above) (min (length v.before) (length l)) l below
  | [] ↦ v
]
act_view v go_home = record v { before = []; behind = the_line v }
act_view v go_end = record v { before = reverse (the_line v); behind = [] }

abbrev mk : List Line → Line → Line → List Line → View
mk above before behind below = record {
  above = above;
  before = before;
  behind = behind;
  below = below;
}

get_line :
    (above : List Line) (l : Line) (below : List Line)
    → get_elem? (reverse above ++ l ∷ below) (length above) ≡ some l
get_line above l below =
    get_elem?-append-cons (reverse above) below l (length above) (sym (length-reverse above))

set_line :
    (above : List Line) (l l' : Line) (below : List Line)
    → set (reverse above ++ l ∷ below) (length above) l' ≡ reverse above ++ l' ∷ below
set_line above l l' below =
    set-append-cons (reverse above) below l l' (length above) (sym (length-reverse above))

length-line : (b h : Line) → length (reverse b ++ h) ≡ length b + length h
length-line b h = rw (length-append, length-reverse) refl

module _ (a : List Line) (b h : Line) (w : List Line) where
  line_here : get_elem? (plug (mk a b h w)).lines (length a) ≡ some (reverse b ++ h)
  line_here = get_line a (reverse b ++ h) w

  act-plug_type :
      (c : ℕ) → act (plug (mk a b h w)) (type c) ≡ some (plug (act_view (mk a b h w) (type c)))
  unfolding act act_view
  act-plug_type c =
      rw (line_here, insert?-append (reverse b) h c (length b) (sym (length-reverse b)))
        (rw (set_line a (reverse b ++ h) (reverse b ++ c ∷ h) w)
          (simp (reverse-cons, append_assoc, add-one)))

  act-plug_enter : act (plug (mk a b h w)) enter ≡ some (plug (act_view (mk a b h w) enter))
  unfolding act act_view
  act-plug_enter =
      rw (line_here, split_off?-append (reverse b) h (length b) (sym (length-reverse b)))
        (rw
          (
            set_line a (reverse b ++ h) (reverse b) w,
            insert?-append-next (reverse a) w (reverse b) h (length a + 1)
                (omega (arith, length-reverse a)),
          )
          (simp (reverse-cons, append_assoc, add-one)))

suc_pred : (n : ℕ) → suc n - 1 ≡ n
suc_pred n = omega arith

-- The two lines at the cursor, where the upper one is the nearest of the lines above.
module _ (l : Line) (a : List Line) (m : Line) (w : List Line) where
  lower_line : get_elem? (reverse a ++ l ∷ m ∷ w) (suc (length a)) ≡ some m
  lower_line = get_elem?-append-next (reverse a) w l m _ (omega (arith, length-reverse a))

  lower_line_removed : remove? (reverse a ++ l ∷ m ∷ w) (suc (length a)) ≡ some (reverse a ++ l ∷ w)
  lower_line_removed = remove?-append-next (reverse a) w l m _ (omega (arith, length-reverse a))

  next_line : get_elem? (reverse a ++ l ∷ m ∷ w) (length a + 1) ≡ some m
  next_line = get_elem?-append-next (reverse a) w l m _ (omega (arith, length-reverse a))

  next_line_removed : remove? (reverse a ++ l ∷ m ∷ w) (length a + 1) ≡ some (reverse a ++ l ∷ w)
  next_line_removed = remove?-append-next (reverse a) w l m _ (omega (arith, length-reverse a))

  has_next : ltb (length a + 1) (length (reverse a ++ l ∷ m ∷ w)) ≡ true
  has_next = lt→ltb _ _ (omega (arith, length-append (reverse a) (l ∷ m ∷ w), length-reverse a))

no_next : (a : List Line) (l : Line) → ltb (length a + 1) (length (reverse a ++ l ∷ [])) ≡ false
no_next a l = le→not-ltb _ _ (omega (arith, length-append (reverse a) (l ∷ []), length-reverse a))

inside_line : (b h : Line) (c : ℕ) → ltb (length b) (length (reverse b ++ c ∷ h)) ≡ true
inside_line b h c = lt→ltb _ _ (omega (arith, length-line b (c ∷ h)))

line_end : (b : Line) → ltb (length b) (length (reverse b ++ [])) ≡ false
line_end b = le→not-ltb _ _ (omega (arith, length-line b []))

is_pos : (n : ℕ) → ltb 0 (suc n) ≡ true
is_pos n = lt→ltb _ _ (omega arith)

act-plug_rub_out :
    (a : List Line) (b h : Line) (w : List Line)
    → act (plug (mk a b h w)) rub_out ≡ some (plug (act_view (mk a b h w) rub_out))
unfolding act act_view
act-plug_rub_out a (c ∷ b) h w =
    rw (line_here a (c ∷ b) h w, is_pos (length b), suc_pred (length b), reverse-cons, append_assoc)
      (rw (remove?-append-cons (reverse b) h c (length b) (sym (length-reverse b)))
        (rw (set_line a (reverse b ++ c ∷ h) (reverse b ++ h) w) refl))
act-plug_rub_out (l ∷ a) [] h w =
    rw (is_pos (length a), suc_pred (length a), reverse-cons, append_assoc)
      (rw (lower_line l a h w, lower_line_removed l a h w, get_line a l w, set_line a l (l ++ h) w)
        (rw (reverse-reverse, length-reverse) refl))
act-plug_rub_out [] [] h w = refl

act-plug_del :
    (a : List Line) (b h : Line) (w : List Line)
    → act (plug (mk a b h w)) del ≡ some (plug (act_view (mk a b h w) del))
unfolding act act_view
act-plug_del a b (c ∷ h) w =
    rw
      (
        line_here a b (c ∷ h) w,
        inside_line b h c,
        remove?-append-cons (reverse b) h c (length b) (sym (length-reverse b)),
      )
      (rw (set_line a (reverse b ++ c ∷ h) (reverse b ++ h) w) refl)
act-plug_del a b [] (l ∷ w) =
    rw (line_here a b [] (l ∷ w), line_end b, has_next (reverse b ++ []) a l w)
      (rw
        (
          next_line (reverse b ++ []) a l w,
          next_line_removed (reverse b ++ []) a l w,
          set_line a (reverse b ++ []) ((reverse b ++ []) ++ l) w,
          append-nil,
        )
        refl)
act-plug_del a b [] [] = rw (line_here a b [] [], line_end b, no_next a (reverse b ++ [])) refl

act-plug_go_left :
    (a : List Line) (b h : Line) (w : List Line)
    → act (plug (mk a b h w)) go_left ≡ some (plug (act_view (mk a b h w) go_left))
unfolding act act_view
act-plug_go_left a (c ∷ b) h w =
    rw (is_pos (length b), suc_pred (length b), reverse-cons, append_assoc) refl
act-plug_go_left (l ∷ a) [] h w =
    rw (is_pos (length a), suc_pred (length a), reverse-cons, append_assoc)
      (rw (get_line a l (h ∷ w)) (simp (reverse-reverse, append-nil, length-reverse)))
act-plug_go_left [] [] h w = refl

act-plug_go_right :
    (a : List Line) (b h : Line) (w : List Line)
    → act (plug (mk a b h w)) go_right ≡ some (plug (act_view (mk a b h w) go_right))
unfolding act act_view
act-plug_go_right a b (c ∷ h) w =
    rw (line_here a b (c ∷ h) w, inside_line b h c) (simp (reverse-cons, append_assoc, add-one))
act-plug_go_right a b [] (l ∷ w) =
    rw (line_here a b [] (l ∷ w), line_end b, has_next (reverse b ++ []) a l w)
      (simp (reverse-cons, append_assoc, add-one))
act-plug_go_right a b [] [] = rw (line_here a b [] [], line_end b, no_next a (reverse b ++ [])) refl

-- The column `min n (length l)` splits the line `l`.
length-at_col : (n : ℕ) (l : Line) → length (reverse (take (min n (length l)) l)) ≡ min n (length l)
length-at_col n l = rw (length-reverse, length-take (min n (length l)) l (omega arith)) refl

act-plug_go_up :
    (a : List Line) (b h : Line) (w : List Line)
    → act (plug (mk a b h w)) go_up ≡ some (plug (act_view (mk a b h w) go_up))
unfolding act act_view
act-plug_go_up (l ∷ a) b h w =
    rw (is_pos (length a), suc_pred (length a), reverse-cons, append_assoc)
      (rw
        (
          get_line a l ((reverse b ++ h) ∷ w),
          length-at_col (length b) l,
          reverse-reverse,
          take-drop,
        )
        refl)
act-plug_go_up [] b h w = refl

act-plug_go_down :
    (a : List Line) (b h : Line) (w : List Line)
    → act (plug (mk a b h w)) go_down ≡ some (plug (act_view (mk a b h w) go_down))
unfolding act act_view
act-plug_go_down a b h (l ∷ w) =
    rw
      (
        has_next (reverse b ++ h) a l w,
        next_line (reverse b ++ h) a l w,
        length-at_col (length b) l,
        reverse-reverse,
        take-drop,
      )
      (simp (reverse-cons, append_assoc, add-one))
act-plug_go_down a b h [] = rw (no_next a (reverse b ++ h)) refl

act-plug_go_end :
    (a : List Line) (b h : Line) (w : List Line)
    → act (plug (mk a b h w)) go_end ≡ some (plug (act_view (mk a b h w) go_end))
unfolding act act_view
act-plug_go_end a b h w =
    rw (line_here a b h w) (simp (reverse-reverse, append-nil, length-reverse))

act-plug_go_home : (v : View) → act (plug v) go_home ≡ some (plug (act_view v go_home))
unfolding act act_view
act-plug_go_home v = refl

-- On every view, and with every key, the buffer does what the view does, and does not panic.
pub act-plug : (v : View) (e : Edit) → act (plug v) e ≡ some (plug (act_view v e))
act-plug v (type c) = act-plug_type v.above v.before v.behind v.below c
act-plug v enter = act-plug_enter v.above v.before v.behind v.below
act-plug v rub_out = act-plug_rub_out v.above v.before v.behind v.below
act-plug v del = act-plug_del v.above v.before v.behind v.below
act-plug v go_left = act-plug_go_left v.above v.before v.behind v.below
act-plug v go_right = act-plug_go_right v.above v.before v.behind v.below
act-plug v go_up = act-plug_go_up v.above v.before v.behind v.below
act-plug v go_down = act-plug_go_down v.above v.before v.behind v.below
act-plug v go_home = act-plug_go_home v
act-plug v go_end = act-plug_go_end v.above v.before v.behind v.below
