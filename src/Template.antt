-- ===== src/Template.antt =====
-- src/template.rs: the operator's text templates, cut into tokens and rendered against a context.
pub mod Runs
pub mod Fuel
pub mod Tree
pub mod Spelling
pub mod RoundTrip
pub mod Kept
pub mod Markup
mod Tests
use bbs_rs.Prelude.{
  ℕ, zero, suc, Bool, true, false, not, ◌&&◌, ◌||◌, List, [], ◌∷◌, ◌++◌, Option, none, some, ◌>>=◌,
  find, Text, codes, text_eq, trim, eq_ignore_case, length, is_some, ◌==◌, if◌then◌else◌, ℤ, pos,
  negsuc, to_string,
}

pub data Value : Type 0 where
  str : Text → Value
  int : ℤ → Value
  bool : Bool → Value

-- A switch prints as nothing.
abbrev pub display : Value → Text
display (str s) = s
display (int n) = to_string n
display (bool _) = []

abbrev is_zero : ℤ → Bool
is_zero (pos n) = n == 0
is_zero (negsuc _) = false

abbrev pub value_truthy : Value → Bool
value_truthy (bool b) = b
value_truthy (int n) = not (is_zero n)
value_truthy (str s) =
    not (text_eq s []) && not (text_eq s (codes "0")) && not (eq_ignore_case s (codes "false"))

-- The map `vars`: the newest binding of a name comes first.
abbrev pub Context : Type 0
Context = List (Text × Value)

abbrev pub set_var : Context → Text → Value → Context
set_var ctx name v = (name, v) ∷ ctx

abbrev pub get_var : Context → Text → Option Value
get_var [] name = none
get_var ((n, v) ∷ ctx) name = if text_eq n name then some v else get_var ctx name

abbrev truthy_or_unset : Option Value → Bool
truthy_or_unset none = false
truthy_or_unset (some v) = value_truthy v

abbrev pub truthy : Context → Text → Bool
truthy ctx name = truthy_or_unset (get_var ctx name)

pub data Token : Type 0 where
  text var if_ unless : Text → Token
  else_ end_if end_unless : Token

pub data Stop : Type 0 where
  eof else_stop end_stop : Stop

-- The five characters that change meaning in HTML.
abbrev pub escape_char : ℕ → Text
escape_char c =
    if c == b'&'
    then codes "&amp;"
    else if c == b'<'
    then codes "&lt;"
    else if c == b'>'
    then codes "&gt;"
    else if c == b'"'
    then codes "&quot;"
    else if c == b'\''
    then codes "&#39;"
    else c ∷ []

abbrev pub html_escape : Text → Text
html_escape [] = []
html_escape (c ∷ s) = escape_char c ++ html_escape s

-- `split_once` at the first two characters `c`: what stands before and after them
abbrev on_before : ℕ → Option (Text × Text) → Option (Text × Text)
on_before a none = none
on_before a (some (before, after)) = some (a ∷ before, after)

abbrev pub split_pair : ℕ → Text → Option (Text × Text)
split_pair c [] = none
split_pair c (a ∷ []) = none
split_pair c (a ∷ b ∷ s) =
    let rest = on_before a (split_pair c (b ∷ s)) in if a == c && b == c then some ([], s) else rest

abbrev pub strip_prefix : Text → Text → Option Text
strip_prefix [] s = some s
strip_prefix (p ∷ ps) [] = none
strip_prefix (p ∷ ps) (c ∷ s) = if p == c then strip_prefix ps s else none

abbrev parse_word : Text → Token
parse_word inner =
    if text_eq inner (codes "else")
    then else_
    else if text_eq inner (codes "/if")
    then end_if
    else if text_eq inner (codes "/unless")
    then end_unless
    else var inner

abbrev parse_unless : Option Text → Text → Token
parse_unless (some name) inner = unless (trim name)
parse_unless none inner = parse_word inner

abbrev parse_if : Option Text → Text → Token
parse_if (some name) inner = if_ (trim name)
parse_if none inner = parse_unless (strip_prefix (codes "#unless ") inner) inner

abbrev pub parse_tag : Text → Token
parse_tag inner = parse_if (strip_prefix (codes "#if ") inner) inner

-- Empty text makes no token.
abbrev pub text_token : Text → List Token → List Token
text_token [] ts = ts
text_token (c ∷ s) ts = text (c ∷ s) ∷ ts

abbrev on_tokens : Text → Token → Option (List Token) → Option (List Token)
on_tokens before t none = none
on_tokens before t (some ts) = some (text_token before (t ∷ ts))

-- One round of the loop per tag, `go` being the rounds after it; `none` is out of fuel.
abbrev at_close :
    (Text → Option (List Token)) → Text → Text → Option (Text × Text) → Option (List Token)
at_close go before after_open none = some (text_token before (text (b'{' ∷ b'{' ∷ after_open) ∷ []))
at_close go before after_open (some (inner, rest)) =
    on_tokens before (parse_tag (trim inner)) (go rest)

abbrev at_open : (Text → Option (List Token)) → Text → Option (Text × Text) → Option (List Token)
at_open go rest none = some (text_token rest [])
at_open go rest (some (before, after_open)) =
    at_close go before after_open (split_pair b'}' after_open)

unfoldable pub tokenize : ℕ → Text → Option (List Token)
tokenize zero rest = none
tokenize (suc f) rest = at_open (tokenize f) rest (split_pair b'{' rest)

abbrev pub apply_escape : Option (Text → Text) → Text → Text
apply_escape none s = s
apply_escape (some esc) s = esc s

abbrev pub substitute : Option (Text → Text) → Option Value → Text
substitute escape none = []
substitute escape (some v) = apply_escape escape (display v)

-- Where a recursive call stopped, the tokens from `pos` on, and the output.
abbrev pub Ran : Type 0
Ran = Option (Stop × (List Token × Text))

-- A run of the tokens from a position, with the output so far, emitting or not.
abbrev pub Run : Type 0
Run = List Token → Text → Bool → Ran

abbrev pub otherwise : Run → Stop → List Token → Text → Bool → Ran
otherwise go else_stop ts out emit = go ts out emit
otherwise go eof ts out emit = some (eof, (ts, out))
otherwise go end_stop ts out emit = some (end_stop, (ts, out))

-- The branch taken if the test holds, an optional other branch, and what comes after.
abbrev pub branch : Run → List Token → Text → Bool → Bool → Ran
branch go ts out emit test = go ts out (emit && test) >>= λ (stop, (ts, out)).
    otherwise go stop ts out (emit && not test) >>= λ (_, (ts, out)). go ts out emit

module _ (ctx : Context) (escape : Option (Text → Text)) where
  unfoldable pub exec : ℕ → List Token → Text → Bool → Ran
  exec zero ts out emit = none
  exec (suc f) [] out emit = some (eof, ([], out))
  exec (suc f) (text t ∷ ts) out emit = exec f ts (if emit then out ++ t else out) emit
  exec (suc f) (var name ∷ ts) out emit =
      exec f ts (if emit then out ++ substitute escape (get_var ctx name) else out) emit
  exec (suc f) (if_ name ∷ ts) out emit = branch (exec f) ts out emit (truthy ctx name)
  exec (suc f) (unless name ∷ ts) out emit = branch (exec f) ts out emit (not (truthy ctx name))
  exec (suc f) (else_ ∷ ts) out emit = some (else_stop, (ts, out))
  exec (suc f) (end_if ∷ ts) out emit = some (end_stop, (ts, out))
  exec (suc f) (end_unless ∷ ts) out emit = some (end_stop, (ts, out))

  abbrev pub again : (List Token → Text → Option Text) → Stop → List Token → Text → Option Text
  again go eof ts out = some out
  again go else_stop ts out = go ts out
  again go end_stop ts out = go ts out

  -- A stray `else` or end at the top level is skipped.
  unfoldable pub exec_all : ℕ → List Token → Text → Option Text
  exec_all zero ts out = none
  exec_all (suc f) [] out = some out
  exec_all (suc f) (t ∷ ts) out =
      exec (suc f) (t ∷ ts) out true >>= λ (stop, (ts, out)). again (exec_all f) stop ts out

  unfoldable pub render_with : Text → Option Text
  render_with template =
      if is_some (split_pair b'{' template)
      then run (tokenize (suc (length template)) template)
      else some template
    where
      run : Option (List Token) → Option Text
      run tokens = tokens >>= λ ts. exec_all (suc (length ts)) ts []

unfoldable pub render : Text → Context → Option Text
render template ctx = render_with ctx none template

unfoldable pub render_html : Text → Context → Option Text
render_html template ctx = render_with ctx (some html_escape) template
