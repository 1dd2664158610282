-- ===== src/Form.antt =====
-- src/app/state.rs: the form of single-line fields behind the compose and register screens.
-- `fields[focus]` out of range is a panic, here `none`.
pub mod Laws
mod Tests
use bbs_rs.Prelude.{
  ℕ, suc, ◌+◌, ◌-◌, ◌≡◌, Bool, true, false, List, [], ◌∷◌, ◌++◌, Option, none, some, ◌>>=◌, length,
  get_elem?, set, Text, trim, reverse, if◌then◌else◌, ◌==◌, ltb,
}

pub record Field : Type 0 where
  pub label : Text
  pub value : Text
  pub secret : Bool

abbrev pub blank_field : Text → Bool → Field
blank_field label secret = record { label = label; value = []; secret = secret }

pub record Form : Type 0 where
  pub fields : List Field
  pub focus : ℕ

abbrev pub new : List Field → Form
new fields = record { fields = fields; focus = 0 }

-- `focused_mut`: what a caller writes through the reference
abbrev pub focused_mut : (Text → Text) → Form → Option Form
focused_mut write form = do
  field ← get_elem? form.fields form.focus
  some (record form {
    fields = set form.fields form.focus (record field { value = write field.value });
  })

-- `Vec::pop` on the last character
abbrev pub pop : Text → Text
pop [] = []
pop (c ∷ []) = []
pop (c ∷ d ∷ s) = c ∷ pop (d ∷ s)

unfoldable pub insert : ℕ → Form → Option Form
insert c form = focused_mut (λ v. v ++ c ∷ []) form

unfoldable pub backspace : Form → Option Form
backspace form = focused_mut pop form

unfoldable pub next_field : Form → Form
next_field form =
    if ltb (form.focus + 1) (length form.fields)
    then record form { focus = form.focus + 1 }
    else form

unfoldable pub prev_field : Form → Form
prev_field form = record form { focus = form.focus - 1 }

unfoldable pub on_last : Form → Bool
on_last form = form.focus + 1 == length form.fields

unfoldable pub value_of : Form → ℕ → Option Text
value_of form idx = do field ← get_elem? form.fields idx; some (trim field.value)
