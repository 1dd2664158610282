-- ===== src/Editor/Art.antt =====
-- src/cfg/editor.rs: the art of the screens.
use bbs_rs.Prelude.{
  Bool, ◌++◌, Option, some, ◌>>=◌, Text, codes, length, get_elem?, ◌==◌, if◌then◌else◌,
}
use bbs_rs.Input.{KeyCode, char, enter, esc, up, down, left}
use bbs_rs.Editor.Docs.{Docs}
use bbs_rs.Editor.State.{
  Editor, on_sections, on_edit, from_art_screen, art_file_field, art_screen_keys, to_screen, above,
  below, open_save,
}
use bbs_rs.Editor.Seeding.{text_or_empty}

module _ (docs : Docs) where
  -- The art of a screen; a row out of range panics.
  abbrev pub art_edit : Editor docs → Option (Editor docs)
  art_edit e = get_elem? art_screen_keys e.art_sel >>= λ (key, _). some (record e {
    input = text_or_empty (docs.art_screen_get e.doc key);
    edit_from = from_art_screen;
    screen = on_edit;
    status = art_file_field.help;
  })

  abbrev pub art_unset_done : Text → Bool × docs.Doc → Editor docs → Editor docs
  art_unset_done label (had, doc) e = record e {
    doc = doc;
    status = if had then label ++ codes ": art removed" else label ++ codes " has no art set";
  }

  abbrev pub art_unset : Editor docs → Option (Editor docs)
  art_unset e = get_elem? art_screen_keys e.art_sel >>= λ (key, label).
      some (art_unset_done label (docs.art_screen_unset e.doc key) e)

  abbrev pub art_up : Editor docs → Editor docs
  art_up e = record e { art_sel = above docs e.art_sel }

  abbrev pub art_down : Editor docs → Editor docs
  art_down e = record e { art_sel = below docs e.art_sel (length art_screen_keys) }

  abbrev pub art_screens_key : KeyCode → docs.World → Editor docs → Option (Editor docs)
  art_screens_key up w e = some (art_up e)
  art_screens_key down w e = some (art_down e)
  art_screens_key enter w e = art_edit e
  art_screens_key esc w e = some (to_screen docs e on_sections)
  art_screens_key left w e = some (to_screen docs e on_sections)
  art_screens_key (char c) w e =
      if c == b'k'
      then some (art_up e)
      else if c == b'j'
      then some (art_down e)
      else if c == b'u'
      then art_unset e
      else if c == b's'
      then some (open_save docs w e)
      else if c == b'q'
      then some (to_screen docs e on_sections)
      else some e
  art_screens_key _ w e = some e
