-- ===== src/Template/RoundTrip.antt =====
-- src/template.rs: written templates are cut into their tokens and print the value of their tree.
use bbs_rs.Prelude.{
  ℕ, zero, suc, ◌+◌, ◌<◌, ◌≡◌, refl, sym, ap, ◌∙◌, true, false, List, [], ◌∷◌, ◌++◌, Option, none,
  some, inl, inr, Option-cases, arith, Text, append-nil, length, length-append,
}
use bbs_rs.Template.{
  Token, eof, text, var, if_, unless, else_, end_if, end_unless, Context, split_pair, tokenize,
  exec, exec_all, render_with, render, render_html, html_escape,
}
use bbs_rs.Template.Tree.{
  Doc, done, plain, value, only, choose, tokens, size, evaluate, exec-tokens, closer,
}
use bbs_rs.Template.Spelling.{
  inside, tag, lacks, spell, is_tag, starts_text, is_plain, is_spelled, text_token-plain,
  tokenize-tag, tokenize-last, split_pair-found,
}

spell-tag : (t : Token) (ts : List Token) → is_tag t ≡ true → spell (t ∷ ts) ≡ tag t (spell ts)
spell-tag (text t) ts h = cc
spell-tag (var _) ts h = refl
spell-tag (if_ _) ts h = refl
spell-tag (unless _) ts h = refl
spell-tag else_ ts h = refl
spell-tag end_if ts h = refl
spell-tag end_unless ts h = refl

is_spelled-tag :
    (t : Token) (ts : List Token)
    → starts_text (t ∷ ts) ≡ false
    → is_spelled (t ∷ ts) ≡ true
    → (is_tag t ≡ true) × (is_spelled ts ≡ true)
is_spelled-tag (text t) ts h e = cc
is_spelled-tag (var _) ts h e = ground arith
is_spelled-tag (if_ _) ts h e = ground arith
is_spelled-tag (unless _) ts h e = ground arith
is_spelled-tag else_ ts h e = (refl, e)
is_spelled-tag end_if ts h e = (refl, e)
is_spelled-tag end_unless ts h e = (refl, e)

length-tag : (t : Token) (rest : Text) → length rest < length (tag t rest)
length-tag t rest = omega (arith, length-append (inside t) (b'}' ∷ b'}' ∷ rest))

-- Template text written from tokens is cut into these tokens, where names are names, texts are
-- neither empty nor adjacent nor hold an opening brace, and the fuel exceeds the length.
pub tokenize-spell :
    (f : ℕ) (ts : List Token)
    → is_spelled ts ≡ true
    → length (spell ts) < f
    → tokenize f (spell ts) ≡ some ts
tokenize-spell zero ts h le = absurd (omega arith)
tokenize-spell (suc f) [] h le = tokenize-last f [] refl
tokenize-spell (suc f) (text t ∷ []) h le =
    let ok : is_plain t ≡ true = ground arith in
    let cut = tokenize-last f t (ground arith) in
    rw append-nil (rw (text_token-plain t [] ok) at cut)
tokenize-spell (suc f) (text t ∷ u ∷ ts) h le =
    let ok : is_plain t ≡ true = ground arith in
    let apart : starts_text (u ∷ ts) ≡ false = ground arith in
    let (is_u, rest) = is_spelled-tag u ts apart (ground arith) in
    let e = spell-tag u ts is_u in
    let shorter : length (spell ts) < f =
      omega (arith, length-append t (spell (u ∷ ts)), ap length e, length-tag u (spell ts)) in
    rw (e, sym (text_token-plain t (u ∷ ts) ok))
      (tokenize-tag f t u (spell ts) ts (ground arith) is_u (tokenize-spell f ts rest shorter))
tokenize-spell (suc f) (u ∷ ts) h le =
    let (is_u, rest) = is_spelled-tag u ts refl h in
    let e = spell-tag u ts is_u in
    let shorter : length (spell ts) < f = omega (arith, ap length e, length-tag u (spell ts)) in
    rw e (tokenize-tag f [] u (spell ts) ts refl is_u (tokenize-spell f ts rest shorter))

length-tokens : (d : Doc) (ts : List Token) → length (tokens d ts) ≡ size d + length ts
length-tokens done ts = omega arith
length-tokens (plain t d) ts = ap suc (length-tokens d ts) ∙ omega arith
length-tokens (value name d) ts = ap suc (length-tokens d ts) ∙ omega arith
length-tokens (only wanted name b d) ts =
    omega (arith, length-tokens b (closer wanted ∷ tokens d ts), length-tokens d ts)
length-tokens (choose wanted name b c d) ts = omega (
  arith,
  length-tokens b (else_ ∷ tokens c (closer wanted ∷ tokens d ts)),
  length-tokens c (closer wanted ∷ tokens d ts),
  length-tokens d ts,
)

exec_all-eof :
    (ctx : Context) (escape : Option (Text → Text)) (f : ℕ) (ts : List Token) (out : Text)
    → exec ctx escape (suc f) ts [] true ≡ some (eof, ([], out))
    → exec_all ctx escape (suc f) ts [] ≡ some out
unfolding exec exec_all
exec_all-eof ctx escape f [] out e = ground (arith, e)
exec_all-eof ctx escape f (t ∷ ts) out e = rw e refl

-- The tokens of a tree print its value.
exec_all-tokens :
    (ctx : Context) (escape : Option (Text → Text)) (d : Doc)
    → exec_all ctx escape (suc (length (tokens d []))) (tokens d []) []
      ≡ some (evaluate ctx escape d)
unfolding exec
exec_all-tokens ctx escape d =
    exec_all-eof ctx escape (length (tokens d [])) (tokens d []) (evaluate ctx escape d) (
      exec-tokens ctx escape d [] [] true 1 (suc (length (tokens d [])))
        (eof, ([], evaluate ctx escape d)) refl (omega (arith, length-tokens d [])))

tagged :
    (t : Text) (u : Token) (ts : List Token)
    → lacks b'{' t ≡ true
    → is_tag u ≡ true
    → ¬ (split_pair b'{' (t ++ spell (u ∷ ts)) ≡ none)
tagged t u ts h is_u e =
    let found = split_pair-found b'{' t (inside u ++ b'}' ∷ b'}' ∷ spell ts) h in
    cc (found, rw (spell-tag u ts is_u) at e)

-- Template text in which no tag opens is one text, or empty.
exec_all-untagged :
    (ctx : Context) (escape : Option (Text → Text)) (ts : List Token)
    → is_spelled ts ≡ true
    → split_pair b'{' (spell ts) ≡ none
    → exec_all ctx escape (suc (length ts)) ts [] ≡ some (spell ts)
unfolding exec exec_all
exec_all-untagged ctx escape [] h e = refl
exec_all-untagged ctx escape (text t ∷ []) h e = rw append-nil refl
exec_all-untagged ctx escape (text t ∷ u ∷ ts) h e =
    let (is_u, _) = is_spelled-tag u ts (ground arith) (ground arith) in
    absurd (tagged t u ts (ground arith) is_u e)
exec_all-untagged ctx escape (u ∷ ts) h e =
    let (is_u, _) = is_spelled-tag u ts refl h in absurd (tagged [] u ts refl is_u e)

-- A written template prints the value of the tree it is written from.
pub render_with-spell :
    (ctx : Context) (escape : Option (Text → Text)) (d : Doc)
    → is_spelled (tokens d []) ≡ true
    → render_with ctx escape (spell (tokens d [])) ≡ some (evaluate ctx escape d)
unfolding render_with
render_with-spell ctx escape d h =
    let ts = tokens d [] in
    let value = exec_all-tokens ctx escape d in
    elim (Option-cases (split_pair b'{' (spell ts))) [
      | inl e ↦ rw e (sym (exec_all-untagged ctx escape ts h e) ∙ value)
      | inr (_, e) ↦ rw (e, tokenize-spell (suc (length (spell ts))) ts h (omega arith)) value
    ]

-- A template written from a tree of nested conditionals prints what the tree is meant to print,
-- for the terminal and, with the values escaped, for a page, where names are names and texts are
-- neither empty nor adjacent nor hold an opening brace.
pub render-spell :
    (ctx : Context) (d : Doc)
    → is_spelled (tokens d []) ≡ true
    → (render (spell (tokens d [])) ctx ≡ some (evaluate ctx none d))
      × (render_html (spell (tokens d [])) ctx ≡ some (evaluate ctx (some html_escape) d))
unfolding render render_html
render-spell ctx d h =
    (render_with-spell ctx none d h, render_with-spell ctx (some html_escape) d h)
