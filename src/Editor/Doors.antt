-- ===== src/Editor/Doors.antt =====
-- src/cfg/editor.rs: the doors, and the settings of one.
use bbs_rs.Prelude.{
  ℕ, ◌-◌, Bool, true, false, [], ◌∷◌, ◌++◌, Option, none, some, ◌>>=◌, Text, codes, length,
  get_elem?, min, ltb, ◌==◌, if◌then◌else◌,
}
use bbs_rs.Input.{KeyCode, char, enter, esc, up, down, left, right}
use bbs_rs.Editor.Schema.{Field, FieldKind, enum_, door_fields}
use bbs_rs.Editor.Docs.{Docs, str_value, display_or_empty}
use bbs_rs.Editor.State.{
  Editor, on_sections, on_edit, on_doors, on_door_fields, on_confirm_remove_door, from_door,
  door_field, to_screen, above, below, open_save, next_option,
}
use bbs_rs.Editor.Seeding.{text_or_empty}

module _ (docs : Docs) where
  abbrev pub door_count : docs.Doc → ℕ
  door_count doc = length (docs.door_names doc)

  abbrev pub doors_up : Editor docs → Editor docs
  doors_up e = record e { door_sel = above docs e.door_sel }

  abbrev pub doors_down : Editor docs → Editor docs
  doors_down e = record e { door_sel = below docs e.door_sel (door_count e.doc) }

  -- What needs a door to be there
  abbrev pub with_door : Editor docs → Editor docs → Editor docs
  with_door e changed = if ltb 0 (door_count e.doc) then changed else e

  abbrev pub open_door : Editor docs → Editor docs
  open_door e = with_door e (record e { door_field_sel = 0; screen = on_door_fields })

  abbrev pub door_add : Editor docs → Editor docs
  door_add e =
      let (index, doc) = docs.door_add e.doc (codes "New door") (codes "/path/to/program") in
      record e {
        doc = doc;
        door_sel = index;
        door_field_sel = 0;
        screen = on_door_fields;
        status = codes "Added a door — set its command.";
      }

  abbrev pub moved : Option ℕ × docs.Doc → Editor docs → Editor docs
  moved (none, doc) e = record e { doc = doc }
  moved (some to, doc) e = record e { doc = doc; door_sel = to }

  abbrev pub door_move : Bool → Editor docs → Option (Editor docs)
  door_move is_up e = docs.door_move e.doc e.door_sel is_up >>= λ m. some (moved m e)

  abbrev pub doors_key : KeyCode → docs.World → Editor docs → Option (Editor docs)
  doors_key up w e = some (doors_up e)
  doors_key down w e = some (doors_down e)
  doors_key enter w e = some (open_door e)
  doors_key right w e = some (open_door e)
  doors_key esc w e = some (to_screen docs e on_sections)
  doors_key left w e = some (to_screen docs e on_sections)
  doors_key (char c) w e =
      if c == b'k'
      then some (doors_up e)
      else if c == b'j'
      then some (doors_down e)
      else if c == b'a'
      then some (door_add e)
      else if c == b'd'
      then some (with_door e (to_screen docs e on_confirm_remove_door))
      else if c == b'K'
      then door_move true e
      else if c == b'J'
      then door_move false e
      else if c == b's'
      then some (open_save docs w e)
      else if c == b'q'
      then some (to_screen docs e on_sections)
      else some e
  doors_key _ w e = some e

  abbrev pub chosen_text : Text → Text
  chosen_text [] = codes " = (none)"
  chosen_text (c ∷ s) = codes " = " ++ c ∷ s

  abbrev pub choose_for_door : Field → Editor docs → Text → Editor docs
  choose_for_door f e next = record e {
    doc = docs.door_set e.doc e.door_sel f.key (str_value next);
    status = f.key ++ chosen_text next;
  }

  abbrev pub begin_door_kind : FieldKind → Field → Editor docs → Option (Editor docs)
  begin_door_kind (enum_ options) f e =
      next_option (display_or_empty (docs.door_get e.doc e.door_sel f.key)) options >>= λ next.
      some (choose_for_door f e next)
  begin_door_kind _ f e = some (record e {
    input = display_or_empty (docs.door_get e.doc e.door_sel f.key);
    edit_from = from_door;
    screen = on_edit;
    status = f.help;
  })

  abbrev pub begin_door_field : Option Field → Editor docs → Option (Editor docs)
  begin_door_field none e = some e
  begin_door_field (some f) e = begin_door_kind f.kind f e

  abbrev pub begin_door_edit : Editor docs → Option (Editor docs)
  begin_door_edit e = begin_door_field (door_field docs e) e

  abbrev pub door_fields_up : Editor docs → Editor docs
  door_fields_up e = record e { door_field_sel = above docs e.door_field_sel }

  abbrev pub door_fields_down : Editor docs → Editor docs
  door_fields_down e = record e {
    door_field_sel = below docs e.door_field_sel (length door_fields);
  }

  abbrev pub door_fields_key : KeyCode → docs.World → Editor docs → Option (Editor docs)
  door_fields_key up w e = some (door_fields_up e)
  door_fields_key down w e = some (door_fields_down e)
  door_fields_key enter w e = begin_door_edit e
  door_fields_key esc w e = some (to_screen docs e on_doors)
  door_fields_key left w e = some (to_screen docs e on_doors)
  door_fields_key (char c) w e =
      if c == b'k'
      then some (door_fields_up e)
      else if c == b'j'
      then some (door_fields_down e)
      else if c == b's'
      then some (open_save docs w e)
      else if c == b'q'
      then some (to_screen docs e on_doors)
      else some e
  door_fields_key _ w e = some e

  abbrev pub removed_door : Editor docs → Editor docs
  removed_door e =
      let name = text_or_empty (get_elem? (docs.door_names e.doc) e.door_sel) in
      let doc = docs.door_remove e.doc e.door_sel in
      record e {
        doc = doc;
        door_sel = min e.door_sel (door_count doc - 1);
        screen = on_doors;
        status = codes "Removed " ++ (name ++ codes ". Its files on disk are untouched.");
      }

  abbrev pub kept_door : Editor docs → Editor docs
  kept_door e = record e { screen = on_doors; status = codes "Kept." }

  abbrev pub confirm_remove_door_key : KeyCode → Editor docs → Editor docs
  confirm_remove_door_key (char c) e = if c == b'y' then removed_door e else kept_door e
  confirm_remove_door_key _ e = kept_door e
