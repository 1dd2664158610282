-- ===== src/Template/Tests.antt =====
-- src/template.rs: the module's tests, and the theorems at inputs that run through the code.
use bbs_rs.Prelude.{◌≡◌, refl, true, false, [], some, Text, codes, pos}
use bbs_rs.Template.{
  str, int, bool, Context, set_var, tokenize, exec, exec_all, render_with, render, render_html,
  html_escape,
}
use bbs_rs.Template.Runs.{render_with_returns}
use bbs_rs.Template.Tree.{Doc, done, plain, value, only, choose, tokens}
use bbs_rs.Template.Spelling.{spell}
use bbs_rs.Template.RoundTrip.{render-spell}
use bbs_rs.Template.Markup.{render_html-has_no_markup, has_no_markup}

abbrev ctx : Context
ctx =
    set_var (set_var (set_var [] (codes "user") (str (codes "<b>al"))) (codes "web") (bool true))
      (codes "unread_mail") (int (pos 12))

nested_conditionals :
    render (codes "{{#if web}}a{{#unless user}}b{{else}}c{{/unless}}{{else}}d{{/if}}!") ctx
    ≡ some (codes "ac!")
unfolding render render_with tokenize exec exec_all
nested_conditionals = refl

unknown_variable : render (codes "[{{nope}}]") ctx ≡ some (codes "[]")
unfolding render render_with tokenize exec exec_all
unknown_variable = refl

unterminated_tag : render (codes "a {{user") ctx ≡ some (codes "a {{user")
unfolding render render_with tokenize exec exec_all
unterminated_tag = refl

number_in_a_tag : render (codes "{{ unread_mail }} new") ctx ≡ some (codes "12 new")
unfolding render render_with tokenize exec exec_all
number_in_a_tag = refl

stray_end : render (codes "a{{/if}}b{{else}}c") ctx ≡ some (codes "abc")
unfolding render render_with tokenize exec exec_all
stray_end = refl

escaped : render_html (codes "Hi {{user}}") ctx ≡ some (codes "Hi &lt;b&gt;al")
unfolding render_html render_with tokenize exec exec_all
escaped = refl

abbrev greeting : Doc
greeting = plain (codes "Hi ") (
    choose true (codes "web") (value (codes "user") done)
      (only false (codes "ssh") (plain (codes "no") done) done) (plain (codes "!") done))

render_with_returns_example :
    (out : Text) × (render_with ctx (some html_escape) (codes "{{/if}}{{user") ≡ some out)
render_with_returns_example = render_with_returns ctx (some html_escape) (codes "{{/if}}{{user")

render-spell_example :
    (render (spell (tokens greeting [])) ctx ≡ some (codes "Hi <b>al!"))
    × (render_html (spell (tokens greeting [])) ctx ≡ some (codes "Hi &lt;b&gt;al!"))
render-spell_example = render-spell ctx greeting refl

render_html-has_no_markup_example :
    (out : Text) × (render_html (codes "Hi {{user}}{{") ctx ≡ some out) × (has_no_markup out ≡ true)
render_html-has_no_markup_example = render_html-has_no_markup ctx (codes "Hi {{user}}{{") refl
