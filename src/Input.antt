-- ===== src/Input.antt =====
-- src/input.rs: raw terminal bytes into key events.
pub mod Rounds
pub mod Chunks
pub mod Typing
mod Tests
use bbs_rs.Prelude.{
  ℕ, zero, suc, ◌+◌, ◌-◌, ◌*◌, Bool, true, false, ◌&&◌, ◌||◌, List, [], ◌∷◌, ◌++◌, Option, none,
  some, length, get_elem?, take, drop, ltb, leb, ◌==◌, if◌then◌else◌,
}

-- `KeyCode`, the codes that the decoder gives. A character is its code point.
pub data KeyCode : Type 0 where
  char : ℕ → KeyCode
  enter tab backtab backspace delete esc : KeyCode
  up down left right home end : KeyCode

-- `Event::Key`: the code, and whether Control is held
pub data Event : Type 0 where
  key : KeyCode → Event
  ctrl : ℕ → Event

unfoldable pub utf8_len : ℕ → ℕ
utf8_len b =
    if ltb b 0x80
    then 1
    else if leb 0xF0 b
    then 4
    else if leb 0xE0 b
    then 3
    else if leb 0xC0 b
    then 2
    else 1

-- What one round of the loop does: it stops and waits for more, or takes `used` bytes.
pub data Round : Type 0 where
  wait : Round
  took : (used : ℕ) → List Event → Round

abbrev between : ℕ → ℕ → ℕ → Bool
between lo hi b = leb lo b && leb b hi

abbrev cont : ℕ → Bool
cont = between 0x80 0xBF

-- `std::str::from_utf8` on the bytes of one sequence, and its first character
unfoldable pub from_utf8 : List ℕ → Option ℕ
from_utf8 (a ∷ []) = if ltb a 0x80 then some a else none
from_utf8 (a ∷ b ∷ []) =
    if between 0xC2 0xDF a && cont b then some ((a - 0xC0) * 64 + (b - 0x80)) else none
from_utf8 (a ∷ b ∷ c ∷ []) =
    if cont c
      && ((a == 0xE0 && between 0xA0 0xBF b)
          || (between 0xE1 0xEC a && cont b)
          || (a == 0xED && between 0x80 0x9F b)
          || (between 0xEE 0xEF a && cont b))
    then some ((a - 0xE0) * 4096 + (b - 0x80) * 64 + (c - 0x80))
    else none
from_utf8 (a ∷ b ∷ c ∷ d ∷ []) =
    if cont c
      && cont d
      && ((a == 0xF0 && between 0x90 0xBF b)
          || (between 0xF1 0xF3 a && cont b)
          || (a == 0xF4 && between 0x80 0x8F b))
    then some ((a - 0xF0) * 262144 + (b - 0x80) * 4096 + (c - 0x80) * 64 + (d - 0x80))
    else none
from_utf8 _ = none

-- The last arm of the `match`: a character of `utf8_len b` bytes, dropped if it is not UTF-8.
pub character : ℕ → List ℕ → Round
unfolding utf8_len from_utf8
character b buf =
    let clen = utf8_len b in
    if ltb (length buf) clen then wait else elim (from_utf8 (take clen buf)) [
      | some c ↦ took clen (key (char c) ∷ [])
      | none ↦ took clen []
    ]

-- The arm for `ESC [` and `ESC O`, at the byte behind them.
pub csi : List ℕ → Round
csi [] = wait
csi (f ∷ more) =
    if f == b'A'
    then took 3 (key up ∷ [])
    else if f == b'B'
    then took 3 (key down ∷ [])
    else if f == b'C'
    then took 3 (key right ∷ [])
    else if f == b'D'
    then took 3 (key left ∷ [])
    else if f == b'H'
    then took 3 (key home ∷ [])
    else if f == b'F'
    then took 3 (key end ∷ [])
    else if f == b'Z'
    then took 3 (key backtab ∷ [])
    else if f == b'3'
    then elim more [ [] ↦ wait | g ∷ _ ↦ if g == b'~' then took 4 (key delete ∷ []) else took 4 [] ]
    else took 3 []

-- The arm for ESC. `first` says that nothing was taken before: a lone ESC is then a key.
pub escape : Bool → List ℕ → Round
unfolding csi
escape first [] = if first then took 1 (key esc ∷ []) else wait
escape first (c ∷ more) = if c == b'[' || c == b'O' then csi more else took 1 (key esc ∷ [])

-- The arms for a control byte other than ESC, each of which takes the byte alone.
pub control : ℕ → Option (List Event)
control b =
    if b == 0x0d || b == 0x0a
    then some (key enter ∷ [])
    else if b == 0x7f || b == 0x08
    then some (key backspace ∷ [])
    else if b == 0x09
    then some (key tab ∷ [])
    else if b == 0x01
    then some (ctrl b'a' ∷ [])
    else if b == 0x03
    then some (ctrl b'c' ∷ [])
    else if b == 0x04
    then some (ctrl b'd' ∷ [])
    else if leb b 0x1f
    then some []
    else none

-- One round of the `while` loop, on the bytes `buf[i..]`.
pub round : Bool → List ℕ → Round
unfolding escape control character
round first [] = wait
round first (b ∷ rest) =
    if b == 0x1b
    then escape first rest
    else elim (control b) [ some out ↦ took 1 out | none ↦ character b (b ∷ rest) ]

-- The `while` loop, on fuel: the events, and the bytes that stay in the buffer.
pub drain_from : ℕ → Bool → List ℕ → List Event × List ℕ
unfolding round
drain_from zero first buf = ([], buf)
drain_from (suc fuel) first buf = elim (round first buf) [
  | wait ↦ ([], buf)
  | took used out ↦ let (more, rest) = drain_from fuel false (drop used buf) in (out ++ more, rest)
]

-- Each round takes a byte at least, so the buffer's length is fuel enough.
pub drain : List ℕ → List Event × List ℕ
unfolding drain_from
drain buf = drain_from (length buf) true buf

pub parse : List ℕ → List Event
unfolding drain
parse bytes = (drain bytes).0
