-- ===== src/Form/Tests.antt =====
-- Runs of a form with two fields.
use bbs_rs.Prelude.{[], ◌∷◌, ◌≡◌, refl, true, false, some, ◌>>=◌, codes}
use bbs_rs.Form.{Form, blank_field, new, insert, backspace, next_field, value_of}
use bbs_rs.Form.Laws.{type_, erase, advance, edits}

abbrev sign_up : Form
sign_up = new (blank_field (codes "Username") false ∷ blank_field (codes "Password") true ∷ [])

typed_name :
    (edits (type_ 97 ∷ type_ 98 ∷ erase ∷ advance ∷ []) sign_up >>= λ f. value_of f 0)
    ≡ some (codes "a")
unfolding value_of insert backspace next_field
typed_name = refl
