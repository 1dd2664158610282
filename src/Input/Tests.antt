-- ===== src/Input/Tests.antt =====
-- Tests and instances for src/input.rs.
use bbs_rs.Prelude.{ℕ, ◌≡◌, refl, List, [], ◌∷◌, ◌++◌, map, arith}
use bbs_rs.Input.{key, char, esc, down, delete, ctrl, drain, parse}
use bbs_rs.Input.Chunks.{drain-append}
use bbs_rs.Input.Typing.{encode, drain-encode}

-- "\x1b[B\x1b[B\x1b", with the last ESC held back.
abbrev packet : List ℕ
packet = 0x1b ∷ b'[' ∷ b'B' ∷ 0x1b ∷ b'[' ∷ b'B' ∷ 0x1b ∷ []

held : drain packet ≡ (key down ∷ key down ∷ [], 0x1b ∷ [])
unfolding drain
held = refl

lone_esc : drain (0x1b ∷ []) ≡ (key esc ∷ [], [])
unfolding drain
lone_esc = refl

delete_pressed : parse (0x1b ∷ b'[' ∷ b'3' ∷ b'~' ∷ 0x01 ∷ []) ≡ key delete ∷ ctrl b'a' ∷ []
unfolding parse
delete_pressed = refl

e_acute : parse (0xC3 ∷ 0xA9 ∷ []) ≡ key (char 0xE9) ∷ []
unfolding parse
e_acute = refl

drain-append_example : drain (packet ++ b'[' ∷ b'A' ∷ []) ≡ (
  (drain packet).0 ++ (drain ((drain packet).1 ++ b'[' ∷ b'A' ∷ [])).0,
  (drain ((drain packet).1 ++ b'[' ∷ b'A' ∷ [])).1,
)
unfolding held
drain-append_example = drain-append packet (b'[' ∷ b'A' ∷ []) (λ e. cc) (λ e. cc)

drain-encode_example :
    drain (encode (b'h' ∷ 0xE9 ∷ 0x20AC ∷ []))
    ≡ (map (λ c. key (char c)) (b'h' ∷ 0xE9 ∷ 0x20AC ∷ []), [])
drain-encode_example = drain-encode (b'h' ∷ 0xE9 ∷ 0x20AC ∷ []) (ground arith)
