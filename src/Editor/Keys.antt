-- ===== src/Editor/Keys.antt =====
-- src/cfg/editor.rs: saving, leaving, and a key on any screen.
use bbs_rs.Prelude.{
  Bool, List, ◌++◌, Option, none, some, Text, codes, length, any, ◌==◌, if◌then◌else◌,
}
use bbs_rs.Input.{KeyCode, char, enter, esc, up, down, right}
use bbs_rs.Editor.Schema.{SectionKind, fields_kind, doors_kind, art_screens_kind, seed_boards_kind}
use bbs_rs.Editor.Sections.{sections}
use bbs_rs.Editor.Docs.{Docs, Issue}
use bbs_rs.Editor.State.{
  Editor, Screen, on_sections, on_fields, on_edit, on_doors, on_art_screens, on_seed_boards,
  on_seed_board_fields, on_confirm_remove_seed_board, on_door_fields, on_confirm_remove_door,
  on_save, on_confirm_quit, stay, quit, section, with_status, to_screen, above, below, open_save,
  Handled, go_on,
}
use bbs_rs.Editor.Fields.{fields_key, edit_key}
use bbs_rs.Editor.Seeding.{open_seed, seed_key, board_fields_key, confirm_remove_board_key}
use bbs_rs.Editor.Art.{art_screens_key}
use bbs_rs.Editor.Doors.{doors_key, door_fields_key, confirm_remove_door_key}

-- Whether `blocking_issues` lists any
abbrev pub is_blocked : List Issue → Bool
is_blocked = any (λ i. i.blocking)

module _ (docs : Docs) where
  abbrev pub saved : Option Text × (docs.Doc × docs.World) → Editor docs → Handled docs
  saved (none, (doc, w)) e = some (
    stay,
    (record e { doc = doc; status = codes "Saved " ++ docs.path doc; screen = on_sections }, w),
  )
  saved (some message, (doc, w)) e =
      some (stay, (record e { doc = doc; status = codes "Could not save: " ++ message }, w))

  abbrev pub try_save : docs.World → Editor docs → Handled docs
  try_save w e =
      if is_blocked e.issues
      then go_on docs w (
          some (
            with_status docs e
              (codes "Fix the blocking problems first — this config would not start.")))
      else saved (docs.save e.doc w) e

  abbrev pub not_saved : docs.World → Editor docs → Handled docs
  not_saved w e =
      go_on docs w (some (record e { screen = on_sections; status = codes "Not saved." }))

  abbrev pub save_key : KeyCode → docs.World → Editor docs → Handled docs
  save_key enter w e = try_save w e
  save_key esc w e = not_saved w e
  save_key (char c) w e =
      if c == b'y' then try_save w e else if c == b'n' then not_saved w e else go_on docs w (some e)
  save_key _ w e = go_on docs w (some e)

  abbrev pub request_quit : docs.World → Editor docs → Handled docs
  request_quit w e =
      if docs.is_dirty e.doc
      then go_on docs w (some (to_screen docs e on_confirm_quit))
      else some (quit, (e, w))

  abbrev pub still_editing : Editor docs → Editor docs
  still_editing e = record e { screen = on_sections; status = codes "Still editing." }

  abbrev pub confirm_quit_key : KeyCode → docs.World → Editor docs → Handled docs
  confirm_quit_key (char c) w e =
      if c == b'y'
      then some (quit, (e, w))
      else if c == b's'
      then go_on docs w (some (open_save docs w e))
      else go_on docs w (some (still_editing e))
  confirm_quit_key _ w e = go_on docs w (some (still_editing e))

  abbrev pub sections_up : Editor docs → Editor docs
  sections_up e = record e { section_sel = above docs e.section_sel }

  abbrev pub sections_down : Editor docs → Editor docs
  sections_down e = record e { section_sel = below docs e.section_sel (length sections) }

  abbrev pub open_kind : SectionKind → docs.World → Editor docs → Editor docs
  open_kind fields_kind w e = record e { field_sel = 0; screen = on_fields }
  open_kind doors_kind w e = record e { door_sel = 0; screen = on_doors }
  open_kind art_screens_kind w e = record e { art_sel = 0; screen = on_art_screens }
  open_kind seed_boards_kind w e = open_seed docs w e

  abbrev pub open_section : docs.World → Editor docs → Editor docs
  open_section w e = open_kind (section docs e).kind w e

  abbrev pub sections_key : KeyCode → docs.World → Editor docs → Handled docs
  sections_key up w e = go_on docs w (some (sections_up e))
  sections_key down w e = go_on docs w (some (sections_down e))
  sections_key enter w e = go_on docs w (some (open_section w e))
  sections_key right w e = go_on docs w (some (open_section w e))
  sections_key esc w e = request_quit w e
  sections_key (char c) w e =
      if c == b'k'
      then go_on docs w (some (sections_up e))
      else if c == b'j'
      then go_on docs w (some (sections_down e))
      else if c == b's'
      then go_on docs w (some (open_save docs w e))
      else if c == b'q'
      then request_quit w e
      else go_on docs w (some e)
  sections_key _ w e = go_on docs w (some e)

  abbrev pub on_screen : Screen → KeyCode → docs.World → Editor docs → Handled docs
  on_screen on_sections key w e = sections_key key w e
  on_screen on_fields key w e = go_on docs w (fields_key docs key w e)
  on_screen on_edit key w e = go_on docs w (edit_key docs key e)
  on_screen on_save key w e = save_key key w e
  on_screen on_confirm_quit key w e = confirm_quit_key key w e
  on_screen on_doors key w e = go_on docs w (doors_key docs key w e)
  on_screen on_art_screens key w e = go_on docs w (art_screens_key docs key w e)
  on_screen on_seed_boards key w e = go_on docs w (seed_key docs key w e)
  on_screen on_seed_board_fields key w e = go_on docs w (board_fields_key docs key w e)
  on_screen on_confirm_remove_seed_board key w e =
      go_on docs w (some (confirm_remove_board_key docs key e))
  on_screen on_door_fields key w e = go_on docs w (door_fields_key docs key w e)
  on_screen on_confirm_remove_door key w e =
      go_on docs w (some (confirm_remove_door_key docs key e))

  abbrev pub on_key : KeyCode → docs.World → Editor docs → Handled docs
  on_key key w e = on_screen e.screen key w e
