-- ===== src/Ansi.antt =====
-- src/app/ansi.rs: ANSI art, decoded and cut into lines of styled spans.
mod Screens
pub mod Cells
pub mod Shows
mod Tests
use bbs_rs.Prelude.{
  ℕ, zero, suc, ◌+◌, ◌-◌, ◌%◌, Bool, true, false, not, ◌&&◌, ◌||◌, List, [], ◌∷◌, ◌++◌, map, Option,
  none, some, ◌>>=◌, Text, codes, length, take, drop, get_elem?, split_on, ltb, leb, ◌==◌,
  if◌then◌else◌, ℤ, pos, negsuc, parse_i64,
}
use bbs_rs.Input.{utf8_len, from_utf8}

-- `unwrap_or`
abbrev or_else {ℓ} : {A : Type ℓ} → A → Option A → A
or_else a none = a
or_else a (some b) = b

abbrev cp437_high : Text
cp437_high =
    codes
      "ÇüéâäàåçêëèïîìÄÅÉæÆôöòûùÿÖÜ¢£¥₧ƒáíóúñÑªº¿⌐¬½¼¡«»░▒▓│┤╡╢╖╕╣║╗╝╜╛┐└┴┬├─┼╞╟╚╔╩╦╠═╬╧╨╤╥╙╘╒╓╫╪┘┌█▄▌▐▀αßΓπΣσµτΦΘΩδ∞φε∩≡±≥≤⌠⌡÷≈°∙·√ⁿ²■ "

-- `std::str::from_utf8` on a whole text, one sequence a round; every round takes a byte or more.
abbrev utf8_text : ℕ → List ℕ → Option Text
utf8_text zero bytes = none
utf8_text (suc f) [] = some []
utf8_text (suc f) (b ∷ bytes) =
    let n = utf8_len b in
    from_utf8 (take n (b ∷ bytes)) >>= λ c. utf8_text f (drop n (b ∷ bytes)) >>= λ s. some (c ∷ s)

abbrev cp437_char : ℕ → ℕ
cp437_char b = if ltb b 0x80 then b else or_else b'?' (get_elem? cp437_high (b - 0x80))

abbrev pub decode : List ℕ → Text
decode bytes = or_else (map cp437_char bytes) (utf8_text (suc (length bytes)) bytes)

pub data Color : Type 0 where
  black red green yellow blue magenta cyan gray : Color
  dark_gray light_red light_green light_yellow light_blue light_magenta light_cyan white : Color
  reset : Color
  indexed : ℕ → Color
  rgb : ℕ → ℕ → ℕ → Color

abbrev std : List Color
std = black ∷ red ∷ green ∷ yellow ∷ blue ∷ magenta ∷ cyan ∷ gray ∷ []

abbrev bright : List Color
bright =
    dark_gray ∷ light_red ∷ light_green ∷ light_yellow ∷ light_blue ∷ light_magenta ∷ light_cyan
    ∷ white ∷ []

-- `n as u8`
abbrev as_u8 : ℤ → ℕ
as_u8 (pos n) = n % 256
as_u8 (negsuc n) = 255 - n % 256

-- An extended colour behind its selector, and how many codes it takes.
abbrev indexed_code : List ℤ → Option (Color × ℕ)
indexed_code [] = none
indexed_code (n ∷ _) = some (indexed (as_u8 n), 2)

abbrev rgb_code : List ℤ → Option (Color × ℕ)
rgb_code (r ∷ g ∷ b ∷ _) = some (rgb (as_u8 r) (as_u8 g) (as_u8 b), 4)
rgb_code _ = none

abbrev extended : List ℤ → Option (Color × ℕ)
extended (pos m ∷ cs) = if m == 5 then indexed_code cs else if m == 2 then rgb_code cs else none
extended _ = none

abbrev sgr_codes : Text → List ℤ
sgr_codes params = map (λ p. or_else (pos 0) (parse_i64 p)) (split_on b';' params)

-- The text between `[` and the final byte of a sequence, that byte, and what comes after.
abbrev read_params : Text → Text × (Option ℕ × Text)
read_params [] = ([], (none, []))
read_params (c ∷ cs) =
    let (params, rest) = read_params cs in
    if leb 0x20 c && leb c 0x3F
    then (c ∷ params, rest)
    else if leb 0x40 c && leb c 0x7E
    then ([], (some c, cs))
    else ([], (none, c ∷ cs))

-- What the loop of `to_text` does to its output: it ends a line, writes a character in the style
-- that is set, and sets the style from the parameters of a sequence.
pub record Screen (A : Type 0) : Type 0 where
  pub newline : A → A
  pub put : ℕ → A → A
  pub sgr : Text → A → A

abbrev is_m : Option ℕ → Bool
is_m none = false
is_m (some c) = c == b'm'

module _ {A : Type 0} (screen : Screen A) where
  abbrev pub sequence : Text → A → Text × A
  sequence cs a =
      let (params, (final_byte, rest)) = read_params cs in
      (rest, if is_m final_byte then screen.sgr params a else a)

  abbrev pub escape : Text → A → Text × A
  escape [] a = ([], a)
  escape (b ∷ cs) a = if b == b'[' then sequence cs a else (b ∷ cs, a)

  abbrev pub tab : A → A
  tab a = screen.put b' ' (screen.put b' ' (screen.put b' ' (screen.put b' ' a)))

  -- One round of the loop, at the character `c`.
  abbrev pub consume : ℕ → Text → A → Text × A
  consume c cs a =
      if c == 0x0A
      then (cs, screen.newline a)
      else if c == 0x0D
      then (cs, a)
      else if c == 0x09
      then (cs, tab a)
      else if c == 0x1B
      then escape cs a
      else if ltb c 0x20
      then (cs, a)
      else (cs, screen.put c a)

  -- `none` is out of fuel.
  unfoldable pub run : ℕ → Text → A → Option A
  run zero cs a = none
  run (suc f) [] a = some a
  run (suc f) (c ∷ cs) a = let next = consume c cs a in run f next.0 next.1

-- `Style` of crate ratatui, and the methods of it that the code calls
pub record Styles : Type 1 where
  pub Style : Type 0
  pub plain : Style
  pub add_bold : Style → Style
  pub remove_bold : Style → Style
  pub fg : Color → Style → Style
  pub bg : Color → Style → Style
  pub eq : Style → Style → Bool

module _ (styles : Styles) where
  -- One code, and how many of those behind it are taken with it.
  abbrev colored : Bool → Color → styles.Style → styles.Style
  colored is_fg c style = if is_fg then styles.fg c style else styles.bg c style

  abbrev selected : Bool → Option (Color × ℕ) → styles.Style → ℕ × styles.Style
  selected is_fg none style = (0, style)
  selected is_fg (some (c, taken)) style = (taken, colored is_fg c style)

  abbrev pub sgr_code : ℤ → List ℤ → styles.Style → ℕ × styles.Style
  sgr_code (negsuc _) cs style = (0, style)
  sgr_code (pos n) cs style =
      if n == 0
      then (0, styles.plain)
      else if n == 1
      then (0, styles.add_bold style)
      else if n == 22
      then (0, styles.remove_bold style)
      else if leb 30 n && leb n 37
      then (0, styles.fg (or_else reset (get_elem? std (n - 30))) style)
      else if leb 90 n && leb n 97
      then (0, styles.fg (or_else reset (get_elem? bright (n - 90))) style)
      else if n == 39
      then (0, styles.fg reset style)
      else if leb 40 n && leb n 47
      then (0, styles.bg (or_else reset (get_elem? std (n - 40))) style)
      else if leb 100 n && leb n 107
      then (0, styles.bg (or_else reset (get_elem? bright (n - 100))) style)
      else if n == 49
      then (0, styles.bg reset style)
      else if n == 38 || n == 48
      then selected (n == 38) (extended cs) style
      else (0, style)

  abbrev pub sgr_from : ℕ → List ℤ → styles.Style → styles.Style
  sgr_from k [] style = style
  sgr_from (suc k) (_ ∷ cs) style = sgr_from k cs style
  sgr_from zero (c ∷ cs) style = let next = sgr_code c cs style in sgr_from next.0 cs next.1

  abbrev pub apply_sgr : Text → styles.Style → styles.Style
  apply_sgr params style = sgr_from 0 (sgr_codes params) style

  pub record Span : Type 0 where
    pub content : Text
    pub style : styles.Style

  pub record Art : Type 0 where
    pub lines : List (List Span)
    pub spans : List Span
    pub buf : Text
    pub buf_style : styles.Style
    pub style : styles.Style

  abbrev pub span : Text → styles.Style → Span
  span s st = record { content = s; style = st }

  -- The spans after `flush`.
  abbrev pub flushed : Text → styles.Style → List Span → List Span
  flushed [] st spans = spans
  flushed (c ∷ s) st spans = spans ++ span (c ∷ s) st ∷ []

  abbrev pub flush : Art → Art
  flush a = record a { spans = flushed a.buf a.buf_style a.spans; buf = [] }

  abbrev pub push_on : Text → ℕ → Art → Art
  push_on [] c a = record a { buf = c ∷ []; buf_style = a.style }
  push_on (d ∷ s) c a =
      if not (styles.eq a.buf_style a.style)
      then record a {
        spans = a.spans ++ span (d ∷ s) a.buf_style ∷ [];
        buf = c ∷ [];
        buf_style = a.style;
      }
      else record a { buf = (d ∷ s) ++ c ∷ [] }

  abbrev pub push : ℕ → Art → Art
  push c a = push_on a.buf c a

  abbrev pub end_line : Art → Art
  end_line a = let b = flush a in record b { lines = b.lines ++ b.spans ∷ []; spans = [] }

  abbrev pub spans_screen : Screen Art
  spans_screen = record {
    newline = end_line;
    put = push;
    sgr = λ params a. record a { style = apply_sgr params a.style };
  }

  abbrev pub blank : Art
  blank = record {
    lines = [];
    spans = [];
    buf = [];
    buf_style = styles.plain;
    style = styles.plain;
  }

  -- The last line stands only if it has a span.
  abbrev pub with_rest {ℓ} : {B : Type ℓ} → List (List B) → List B → List (List B)
  with_rest lines [] = lines
  with_rest lines (x ∷ xs) = lines ++ (x ∷ xs) ∷ []

  abbrev pub finish : Art → List (List Span)
  finish a = let b = flush a in with_rest b.lines b.spans

  unfoldable pub to_text : List ℕ → Option (List (List Span))
  to_text bytes =
      let chars = decode bytes in
      run spans_screen (suc (length chars)) chars blank >>= λ a. some (finish a)
