-- ===== src/Template/Markup.antt =====
-- src/template.rs: what `render_html` lets into a page.
use bbs_rs.Prelude.{
  ℕ, ◌≡◌, refl, Bool, true, not, ◌||◌, [], ◌∷◌, Option, none, some, ◌==◌, arith, all, Text,
  all-append,
}
use bbs_rs.Template.{Value, Context, display, substitute, escape_char, html_escape, render_html}
use bbs_rs.Template.Runs.{render_with_returns}
use bbs_rs.Template.Kept.{render_with-Good}

-- The characters that open or close a tag or an attribute
abbrev pub is_markup : ℕ → Bool
is_markup c = c == b'<' || c == b'>' || c == b'"' || c == b'\''

abbrev pub has_no_markup : Text → Bool
has_no_markup = all (λ c. not (is_markup c))

escape_char-has_no_markup : (c : ℕ) → has_no_markup (escape_char c) ≡ true
escape_char-has_no_markup c = ground arith

pub html_escape-has_no_markup : (s : Text) → has_no_markup (html_escape s) ≡ true
html_escape-has_no_markup [] = refl
html_escape-has_no_markup (c ∷ s) =
    all-append (λ c. not (is_markup c)) (escape_char c) (html_escape s)
      (escape_char-has_no_markup c) (html_escape-has_no_markup s)

-- A template without `<`, `>` or quotes renders to a page's text without any, whatever text the
-- variables hold, and even if its tags are malformed.
pub render_html-has_no_markup :
    (ctx : Context) (template : Text)
    → has_no_markup template ≡ true
    → (out : Text) × (render_html template ctx ≡ some out) × (has_no_markup out ≡ true)
unfolding render_html
render_html-has_no_markup ctx template h =
    let (out, e) = render_with_returns ctx (some html_escape) template in
    let values : (v : Option Value) → has_no_markup (substitute (some html_escape) v) ≡ true =
      elim [ none ↦ refl | some v ↦ html_escape-has_no_markup (display v) ] in
    (
      out,
      e,
      render_with-Good (λ c. not (is_markup c)) ctx (some html_escape) values template out h e,
    )
