-- ===== src/Form/Laws.antt =====
-- What a form of src/app/state.rs keeps while it is filled in.
use bbs_rs.Prelude.{
  ℕ, zero, suc, min, ◌+◌, ◌≤◌, ◌<◌, ◌≡◌, refl, sym, ap, ◌∙◌, Bool, true, List, [], ◌∷◌, ◌++◌,
  Option, some, ◌>>=◌, length, get_elem?, get_elem?_of_lt, set, map, Text, ltb, ltb→lt, arith,
  Bool-cases, inl, inr,
}
use bbs_rs.Form.{Field, Form, focused_mut, pop, insert, backspace, next_field, prev_field, on_last}

-- What the keys do to a form.
pub data Edit : Type 0 where
  type_ : ℕ → Edit
  erase advance retreat : Edit

abbrev pub edit : Edit → Form → Option Form
edit (type_ c) form = insert c form
edit erase form = backspace form
edit advance form = some (next_field form)
edit retreat form = some (prev_field form)

abbrev pub edits : List Edit → Form → Option Form
edits [] form = some form
edits (e ∷ es) form = edit e form >>= edits es

abbrev pub IsFocused : Form → Type 0
IsFocused form = form.focus < length form.fields

abbrev pub look : Field → Text × Bool
look f = (f.label, f.secret)

-- What the screen shows besides the values.
abbrev pub shape : Form → List (Text × Bool)
shape form = map look form.fields

length-set : (fs : List Field) (i : ℕ) (f : Field) → length (set fs i f) ≡ length fs
length-set [] i f = refl
length-set (g ∷ fs) zero f = refl
length-set (g ∷ fs) (suc i) f = ap suc (length-set fs i f)

shape-set :
    (fs : List Field) (i : ℕ) (f : Field) (v : Text)
    → get_elem? fs i ≡ some f
    → map look (set fs i (record f { value = v })) ≡ map look fs
shape-set [] i f v e = refl
shape-set (g ∷ fs) zero f v e =
    let same : g ≡ f = cc in ap (λ (h : Field). look h ∷ map look fs) (sym same)
shape-set (g ∷ fs) (suc i) f v e = ap (λ r. look g ∷ r) (shape-set fs i f v e)

-- A form as it was, but for the values in it.
abbrev pub Keeps : Form → Form → Type 0
Keeps form form' = IsFocused form' × (shape form' ≡ shape form)

abbrev pub Succeeds : Form → Option Form → Type 0
Succeeds form r = (form' : Form) × (r ≡ some form') × Keeps form form'

focused_mut-Succeeds :
    (write : Text → Text) (form : Form) → IsFocused form → Succeeds form (focused_mut write form)
focused_mut-Succeeds write form h =
    let (f, e) = get_elem?_of_lt form.fields form.focus h in
    let fields' = set form.fields form.focus (record f { value = write f.value }) in
    (
      record form { fields = fields' },
      rw e refl,
      (
        omega (arith, length-set form.fields form.focus (record f { value = write f.value })),
        shape-set form.fields form.focus f (write f.value) e,
      ),
    )

edit-Succeeds : (e : Edit) (form : Form) → IsFocused form → Succeeds form (edit e form)
unfolding insert backspace next_field prev_field
edit-Succeeds (type_ c) form h = focused_mut-Succeeds (λ v. v ++ c ∷ []) form h
edit-Succeeds erase form h = focused_mut-Succeeds pop form h
edit-Succeeds advance form h = elim (Bool-cases (ltb (form.focus + 1) (length form.fields))) [
  | inl more ↦ (next_field form, refl, (rw more (ltb→lt _ _ more), rw more refl))
  | inr last ↦ (next_field form, refl, (rw last h, rw last refl))
]
edit-Succeeds retreat form h = (prev_field form, refl, (omega arith, refl))

-- Whatever keys a focused form gets, it does not panic, its focus stays on a field, and labels
-- and secrecy of the fields stay as they were.
pub edits-Succeeds : (es : List Edit) (form : Form) → IsFocused form → Succeeds form (edits es form)
edits-Succeeds [] form h = (form, refl, (h, refl))
edits-Succeeds (e ∷ es) form h =
    let (mid, e₁, (h₁, s₁)) = edit-Succeeds e form h in
    let (last, e₂, (h₂, s₂)) = edits-Succeeds es mid h₁ in (last, rw e₁ e₂, (h₂, s₂ ∙ s₁))

pop-append : (v : Text) (c : ℕ) → pop (v ++ c ∷ []) ≡ v
pop-append [] c = refl
pop-append (a ∷ []) c = refl
pop-append (a ∷ b ∷ v) c = ap (λ t. a ∷ t) (pop-append (b ∷ v) c)

set_back :
    (fs : List Field) (i : ℕ) (f g : Field)
    → get_elem? fs i ≡ some f
    → (get_elem? (set fs i g) i ≡ some g) × (set (set fs i g) i f ≡ fs)
set_back [] i f g e = cc
set_back (h ∷ fs) zero f g e = let same : h ≡ f = cc in (refl, ap (λ k. k ∷ fs) (sym same))
set_back (h ∷ fs) (suc i) f g e =
    let (here, back) = set_back fs i f g e in (here, ap (λ r. h ∷ r) back)

-- Backspace takes back the character that was typed, and nothing else.
pub insert-backspace :
    (c : ℕ) (form : Form) → IsFocused form → (insert c form >>= backspace) ≡ some form
unfolding insert backspace
insert-backspace c form h =
    let (f, e) = get_elem?_of_lt form.fields form.focus h in
    let (here, back) =
      set_back form.fields form.focus f (record f { value = f.value ++ c ∷ [] }) e in
    rw (e, here, pop-append f.value c) (ap (λ fs. some (record form { fields = fs })) back)

abbrev pub advanced : ℕ → Form → Form
advanced zero form = form
advanced (suc n) form = advanced n (next_field form)

next_field-focus :
    (form : Form)
    → IsFocused form
    → IsFocused (next_field form)
      × ((next_field form).fields ≡ form.fields)
      × (min (form.focus + 2) (length form.fields) ≡ (next_field form).focus + 1)
unfolding next_field
next_field-focus form h = elim (Bool-cases (ltb (form.focus + 1) (length form.fields))) [
  | inl more ↦ let lt = ltb→lt _ _ more in (rw more lt, rw more refl, rw more (ground arith))
  | inr last ↦ (rw last h, rw last refl, rw last (ground arith))
]

-- Enter, pressed once for each field still ahead of the focus, brings it to the last field, on
-- which Enter submits, and further presses leave it there.
pub advanced-on_last :
    (n : ℕ) (form : Form)
    → IsFocused form
    → length form.fields ≤ form.focus + n + 1
    → on_last (advanced n form) ≡ true
unfolding on_last
advanced-on_last zero form h far = ground arith
advanced-on_last (suc n) form h far =
    let (h', same, moved) = next_field-focus form h in
    advanced-on_last n (next_field form) h' (rw same (ground arith))
