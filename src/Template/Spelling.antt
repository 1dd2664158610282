-- ===== src/Template/Spelling.antt =====
-- src/template.rs: tokens written out as template text, and cut again.
use bbs_rs.Prelude.{
  ℕ, suc, ◌≡◌, ◌≢◌, refl, Bool, true, false, not, ◌&&◌, ◌||◌, List, [], ◌∷◌, ◌++◌, none, some, ◌==◌,
  ==_iff, arith, all, all-append, Text, codes, text_eq, trim, trim_start, is_alphanumeric,
  is_whitespace, trim_of_all, trim-append_of_trim,
}
use bbs_rs.Template.{
  Token, text, var, if_, unless, else_, end_if, end_unless, split_pair, parse_tag, text_token,
  tokenize,
}

-- The letters of a name, and of text that opens no tag.
abbrev pub is_name_char : ℕ → Bool
is_name_char c = is_alphanumeric c || c == b'_'

abbrev pub is_name : Text → Bool
is_name s = not (text_eq s []) && all is_name_char s

abbrev pub lacks : ℕ → Text → Bool
lacks c = all (λ a. not (a == c))

-- What stands between the braces of a tag.
abbrev pub inside : Token → Text
inside (text t) = t
inside (var name) = name
inside (if_ name) = codes "#if " ++ name
inside (unless name) = codes "#unless " ++ name
inside else_ = codes "else"
inside end_if = codes "/if"
inside end_unless = codes "/unless"

abbrev pub tag : Token → Text → Text
tag t rest = b'{' ∷ b'{' ∷ inside t ++ b'}' ∷ b'}' ∷ rest

-- The template text of a list of tokens.
abbrev pub spell : List Token → Text
spell [] = []
spell (text t ∷ ts) = t ++ spell ts
spell (t ∷ ts) = tag t (spell ts)

-- The names of the tags are names, no text is empty or has a brace, and no two texts are adjacent.
abbrev pub is_tag : Token → Bool
is_tag (text t) = false
is_tag (var name) = is_name name && not (text_eq name (codes "else"))
is_tag (if_ name) = is_name name
is_tag (unless name) = is_name name
is_tag _ = true

abbrev pub starts_text : List Token → Bool
starts_text (text _ ∷ _) = true
starts_text _ = false

abbrev pub is_plain : Text → Bool
is_plain t = not (text_eq t []) && lacks b'{' t

abbrev pub is_spelled : List Token → Bool
is_spelled [] = true
is_spelled (text t ∷ ts) = is_plain t && not (starts_text ts) && is_spelled ts
is_spelled (t ∷ ts) = is_tag t && is_spelled ts

solid : (c : ℕ) → is_name_char c ≡ true → is_whitespace c ≡ false
solid c h = ground arith

brace_free : (s : Text) → all is_name_char s ≡ true → lacks b'}' s ≡ true
brace_free [] h = refl
brace_free (c ∷ s) h = let rest = brace_free s (ground arith) in ground (arith, h, rest)

split_pair-cons :
    (c a : ℕ) (s : Text) {before after : Text}
    → (a == c) ≡ false
    → split_pair c s ≡ some (before, after)
    → split_pair c (a ∷ s) ≡ some (a ∷ before, after)
split_pair-cons c a [] h e = cc
split_pair-cons c a (b ∷ s) h e = rw (h, e) refl

pub split_pair-found :
    (c : ℕ) (s rest : Text) → lacks c s ≡ true → split_pair c (s ++ c ∷ c ∷ rest) ≡ some (s, rest)
split_pair-found c [] rest h = let same = (==_iff c c).1 refl in rw same refl
split_pair-found c (a ∷ s) rest h =
    split_pair-cons c a (s ++ c ∷ c ∷ rest) (ground arith)
      (split_pair-found c s rest (ground arith))

split_pair-missing : (c : ℕ) (s : Text) → lacks c s ≡ true → split_pair c s ≡ none
split_pair-missing c [] h = refl
split_pair-missing c (a ∷ []) h = refl
split_pair-missing c (a ∷ b ∷ s) h =
    let other : (a == c) ≡ false = ground arith in
    rw (other, split_pair-missing c (b ∷ s) (ground arith)) refl

trim-name : (s : Text) → all is_name_char s ≡ true → trim s ≡ s
trim-name = trim_of_all is_name_char solid

name_here : (s : Text) → is_name s ≡ true → s ≢ []
name_here [] h e = cc
name_here (c ∷ s) h e = cc

trim-word :
    (word name : Text)
    → word ≢ []
    → trim_start word ≡ word
    → is_name name ≡ true
    → trim (word ++ name) ≡ word ++ name
trim-word word name here start h =
    let letters : all is_name_char name ≡ true = ground arith in
    trim-append_of_trim word name here start (name_here name h) (trim-name name letters)

-- A tag is read back from what stands between its braces.
parse_tag-var :
    (name : Text)
    → is_name name ≡ true
    → text_eq name (codes "else") ≡ false
    → parse_tag name ≡ var name
parse_tag-var [] h e = cc
parse_tag-var (c ∷ s) h e =
    let hash : (b'#' == c) ≡ false = ground arith in
    let slash : (c == b'/') ≡ false = ground arith in rw (hash, hash, e, slash) refl

parse_tag-inside : (t : Token) → is_tag t ≡ true → parse_tag (trim (inside t)) ≡ t
parse_tag-inside (text t) h = cc
parse_tag-inside (var name) h =
    let letters : all is_name_char name ≡ true = ground arith in
    let other : text_eq name (codes "else") ≡ false = ground arith in
    rw (trim-name name letters) (parse_tag-var name (ground arith) other)
parse_tag-inside (if_ name) h =
    let letters : all is_name_char name ≡ true = ground arith in
    let same = trim-name name letters in
    rw (trim-word (codes "#if ") name (λ e. cc e) refl h, same) refl
parse_tag-inside (unless name) h =
    let letters : all is_name_char name ≡ true = ground arith in
    let same = trim-name name letters in
    rw (trim-word (codes "#unless ") name (λ e. cc e) refl h, same) refl
parse_tag-inside else_ h = refl
parse_tag-inside end_if h = refl
parse_tag-inside end_unless h = refl

inside-lacks : (t : Token) → is_tag t ≡ true → lacks b'}' (inside t) ≡ true
inside-lacks (text t) h = cc
inside-lacks (var name) h = brace_free name (ground arith)
inside-lacks (if_ name) h =
    all-append (λ a. not (a == b'}')) (codes "#if ") name refl (brace_free name (ground arith))
inside-lacks (unless name) h =
    all-append (λ a. not (a == b'}')) (codes "#unless ") name refl (brace_free name (ground arith))
inside-lacks else_ h = refl
inside-lacks end_if h = refl
inside-lacks end_unless h = refl

pub text_token-plain :
    (t : Text) (ts : List Token) → is_plain t ≡ true → text_token t ts ≡ text t ∷ ts
text_token-plain [] ts h = cc
text_token-plain (c ∷ t) ts h = refl

-- A tag after some text is cut off with it, and the cutting goes on behind the tag.
pub tokenize-tag :
    (f : ℕ) (before : Text) (t : Token) (rest : Text) (ts : List Token)
    → lacks b'{' before ≡ true
    → is_tag t ≡ true
    → tokenize f rest ≡ some ts
    → tokenize (suc f) (before ++ tag t rest) ≡ some (text_token before (t ∷ ts))
unfolding tokenize
tokenize-tag f before t rest ts plain h e =
    rw
      (
        split_pair-found b'{' before (inside t ++ b'}' ∷ b'}' ∷ rest) plain,
        split_pair-found b'}' (inside t) rest (inside-lacks t h),
        parse_tag-inside t h,
        e,
      )
      refl

pub tokenize-last :
    (f : ℕ) (s : Text) → lacks b'{' s ≡ true → tokenize (suc f) s ≡ some (text_token s [])
unfolding tokenize
tokenize-last f s h = rw (split_pair-missing b'{' s h) refl
