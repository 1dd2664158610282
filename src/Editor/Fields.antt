-- ===== src/Editor/Fields.antt =====
-- src/cfg/editor.rs: the settings of a section, and the value being typed.
use bbs_rs.Prelude.{
  ℕ, ◌-◌, Bool, true, false, not, ◌&&◌, [], ◌∷◌, ◌++◌, map, Option, none, some, ◌>>=◌, Text, codes,
  trim, split_on, length, get_elem?, leb, ◌==◌, if◌then◌else◌, ℤ, pos, negsuc, to_string, decimal,
  parse_i64,
}
use bbs_rs.Input.{KeyCode, char, enter, backspace, esc, up, down, left}
use bbs_rs.Accounts.Admin.{select}
use bbs_rs.Editor.Schema.{Field, FieldKind, Section, bool, int, enum_, str_list}
use bbs_rs.Editor.Docs.{
  Docs, FieldValue, bool_value, int_value, str_value, list_value, display, display_or_empty,
}
use bbs_rs.Editor.State.{
  Editor, Screen, on_sections, on_fields, on_edit, on_art_screens, on_door_fields,
  on_seed_board_fields, EditFrom, from_section, from_door, from_art_screen, from_seed_board,
  section, field, door_field, seed_board_field, art_file_field, art_screen_keys, effective,
  with_status, to_screen, above, below, open_save, next_option,
}

abbrev is_true : Option FieldValue → Bool
is_true (some (bool_value b)) = b
is_true _ = false

abbrev bool_word : Bool → Text
bool_word b = display (bool_value b)

-- What a typed text stands for, or the message that refuses it.
pub data Parsed : Type 0 where
  accepted : FieldValue → Parsed
  refused : Text → Parsed

abbrev pub in_range : ℕ → ℕ → ℤ → Bool
in_range lo hi (pos n) = leb lo n && leb n hi
in_range lo hi (negsuc n) = false

abbrev parsed_int : Docs → ℕ → ℕ → Text → Text → Option ℤ → Parsed
parsed_int docs lo hi key raw none = refused (docs.quoted raw ++ codes " is not a number")
parsed_int docs lo hi key raw (some n) =
    if in_range lo hi n
    then accepted (int_value n)
    else refused (
        to_string n
        ++ (codes " is outside "
            ++ (decimal lo ++ (codes "–" ++ (decimal hi ++ (codes " for " ++ key))))))

abbrev is_empty_text : Text → Bool
is_empty_text [] = true
is_empty_text (_ ∷ _) = false

abbrev pub parse_value : Docs → FieldKind → Text → Text → Parsed
parse_value docs (int lo hi) key raw = parsed_int docs lo hi key raw (parse_i64 raw)
parse_value docs str_list key raw =
    accepted (list_value (select (λ s. not (is_empty_text s)) (map trim (split_on b',' raw))))
parse_value docs _ key raw = accepted (str_value raw)

module _ (docs : Docs) where
  -- `begin_edit`: a switch is flipped, a choice moves on, and other kinds are typed in.
  abbrev pub set_done : Text → Text → Editor docs → docs.Doc → Editor docs
  set_done k shown e doc = record e { doc = doc; status = k ++ (codes " = " ++ shown) }

  abbrev pub set_shown : Text → Text → FieldValue → Text → Editor docs → Option (Editor docs)
  set_shown s k v shown e = docs.set e.doc s k v >>= λ doc. some (set_done k shown e doc)

  abbrev pub typed_in : Section → Field → Editor docs → Editor docs
  typed_in s f e = record e {
    input = display_or_empty (effective docs e.doc s.name f.key);
    edit_from = from_section;
    screen = on_edit;
    status = f.help;
  }

  abbrev pub begin_kind : FieldKind → Section → Field → Editor docs → Option (Editor docs)
  begin_kind bool s f e =
      let now = is_true (effective docs e.doc s.name f.key) in
      set_shown s.name f.key (bool_value (not now)) (bool_word (not now)) e
  begin_kind (enum_ options) s f e =
      next_option (display_or_empty (effective docs e.doc s.name f.key)) options >>= λ next.
      set_shown s.name f.key (str_value next) next e
  begin_kind _ s f e = some (typed_in s f e)

  abbrev pub begin_field : Option Field → Editor docs → Option (Editor docs)
  begin_field none e = some e
  begin_field (some f) e = begin_kind f.kind (section docs e) f e

  abbrev pub begin_edit : Editor docs → Option (Editor docs)
  begin_edit e = begin_field (field docs e) e

  abbrev pub unset_done : Text → Field → Bool × docs.Doc → Editor docs → Editor docs
  unset_done s f (was_set, doc) e = record e {
    doc = doc;
    status =
        if was_set
        then f.key
          ++ (codes " reset to the default ("
              ++ (display_or_empty (effective docs doc s f.key) ++ codes ")"))
        else f.key ++ codes " was already at its default";
  }

  abbrev pub unset_field : Option Field → Editor docs → Editor docs
  unset_field none e = e
  unset_field (some f) e =
      let s = (section docs e).name in unset_done s f (docs.unset e.doc s f.key) e

  abbrev pub unset_current : Editor docs → Editor docs
  unset_current e = unset_field (field docs e) e

  abbrev pub fields_up : Editor docs → Editor docs
  fields_up e = record e { field_sel = above docs e.field_sel }

  abbrev pub fields_down : Editor docs → Editor docs
  fields_down e = record e { field_sel = below docs e.field_sel (length (section docs e).fields) }

  abbrev pub fields_key : KeyCode → docs.World → Editor docs → Option (Editor docs)
  fields_key up w e = some (fields_up e)
  fields_key down w e = some (fields_down e)
  fields_key enter w e = begin_edit e
  fields_key esc w e = some (to_screen docs e on_sections)
  fields_key left w e = some (to_screen docs e on_sections)
  fields_key (char c) w e =
      if c == b'k'
      then some (fields_up e)
      else if c == b'j'
      then some (fields_down e)
      else if c == b'u'
      then some (unset_current e)
      else if c == b's'
      then some (open_save docs w e)
      else if c == b'q'
      then some (to_screen docs e on_sections)
      else some e
  fields_key _ w e = some e

  -- The field being edited, and the screen that the edit returns to
  abbrev pub field_from : EditFrom → Editor docs → Option Field
  field_from from_door e = door_field docs e
  field_from from_art_screen e = some art_file_field
  field_from from_seed_board e = seed_board_field docs e
  field_from from_section e = field docs e

  abbrev pub edit_field : Editor docs → Option Field
  edit_field e = field_from e.edit_from e

  abbrev pub origin_of : EditFrom → Screen
  origin_of from_door = on_door_fields
  origin_of from_art_screen = on_art_screens
  origin_of from_seed_board = on_seed_board_fields
  origin_of from_section = on_fields

  abbrev pub edit_origin : Editor docs → Screen
  edit_origin e = origin_of e.edit_from

  abbrev pub seed_board_index : Editor docs → ℕ
  seed_board_index e = e.seed_sel - 1

  -- The document after a value is committed; an art row out of range panics too.
  abbrev pub stored : EditFrom → Field → FieldValue → Editor docs → Option docs.Doc
  stored from_door f v e = some (docs.door_set e.doc e.door_sel f.key v)
  stored from_art_screen f v e =
      get_elem? art_screen_keys e.art_sel >>= λ (key, _). docs.art_screen_set e.doc key (display v)
  stored from_seed_board f v e =
      some (docs.seed_board_set e.doc (seed_board_index e) f.key (display v))
  stored from_section f v e = docs.set e.doc (section docs e).name f.key v

  abbrev pub updated : Field → docs.Doc → Editor docs → Editor docs
  updated f doc e = record e {
    doc = doc;
    screen = edit_origin e;
    status = f.key ++ codes " updated";
  }

  abbrev pub commit_parsed : Field → Parsed → Editor docs → Option (Editor docs)
  commit_parsed f (refused message) e = some (with_status docs e message)
  commit_parsed f (accepted v) e = stored e.edit_from f v e >>= λ doc. some (updated f doc e)

  abbrev pub commit_field : Option Field → Editor docs → Option (Editor docs)
  commit_field none e = some e
  commit_field (some f) e = commit_parsed f (parse_value docs f.kind f.key (trim e.input)) e

  abbrev pub commit_edit : Editor docs → Option (Editor docs)
  commit_edit e = commit_field (edit_field e) e

  -- `String::pop`
  abbrev pub pop : Text → Text
  pop [] = []
  pop (c ∷ []) = []
  pop (c ∷ d ∷ s) = c ∷ pop (d ∷ s)

  abbrev pub edit_key : KeyCode → Editor docs → Option (Editor docs)
  edit_key esc e = some (record e { screen = edit_origin e; status = codes "Cancelled." })
  edit_key enter e = commit_edit e
  edit_key backspace e = some (record e { input = pop e.input })
  edit_key (char c) e = some (record e { input = e.input ++ c ∷ [] })
  edit_key _ e = some e
