-- ===== src/Editor/Seeding.antt =====
-- src/cfg/editor.rs: the boards that the first start makes.
use bbs_rs.Prelude.{
  ℕ, suc, ◌-◌, true, false, not, ◌&&◌, [], ◌++◌, Option, none, some, ◌>>=◌, Text, codes, length,
  get_elem?, min, ltb, ◌==◌, if◌then◌else◌,
}
use bbs_rs.Input.{KeyCode, char, enter, esc, up, down, left}
use bbs_rs.Editor.Schema.{Field, FieldKind, enum_, seed_board_fields}
use bbs_rs.Editor.Docs.{Docs, display_or_empty}
use bbs_rs.Editor.State.{
  Editor, on_sections, on_edit, on_seed_boards, on_seed_board_fields, on_confirm_remove_seed_board,
  from_section, from_seed_board, seed_board_field, effective, to_screen, above, below, open_save,
  next_option,
}
use bbs_rs.Editor.Fields.{seed_board_index}

abbrev pub text_or_empty : Option Text → Text
text_or_empty none = []
text_or_empty (some s) = s

module _ (docs : Docs) where
  abbrev pub directory : docs.Doc → Text
  directory doc = elim (docs.parent (docs.path doc)) [ none ↦ codes "." | some dir ↦ dir ]

  abbrev pub open_seed : docs.World → Editor docs → Editor docs
  open_seed w e =
      let url = display_or_empty (docs.get e.doc (codes "network") (codes "database_url")) in
      record e {
        seed_sel = 0;
        seed_on_password = true;
        seed_status = docs.seed_status url (directory e.doc) w;
        screen = on_seed_boards;
      }

  abbrev pub seed_row_count : docs.Doc → ℕ
  seed_row_count doc = suc (length (docs.seed_board_names doc))

  abbrev pub at_seed_row : ℕ → Editor docs → Editor docs
  at_seed_row sel e = record e { seed_sel = sel; seed_on_password = sel == 0 }

  abbrev pub seed_up : Editor docs → Editor docs
  seed_up e = at_seed_row (above docs e.seed_sel) e

  abbrev pub seed_down : Editor docs → Editor docs
  seed_down e = at_seed_row (below docs e.seed_sel (seed_row_count e.doc)) e

  abbrev pub edit_password : Editor docs → Editor docs
  edit_password e = record e {
    input = display_or_empty (effective docs e.doc (codes "seed") (codes "guest_password"));
    edit_from = from_section;
    field_sel = 0;
    screen = on_edit;
  }

  abbrev pub edit_board : Editor docs → Editor docs
  edit_board e = record e { seed_field_sel = 0; screen = on_seed_board_fields }

  abbrev pub seed_enter : Editor docs → Editor docs
  seed_enter e = if e.seed_on_password then edit_password e else edit_board e

  abbrev pub seed_added : Editor docs → ℕ × docs.Doc → Editor docs
  seed_added e (index, doc) = record e {
    doc = doc;
    seed_sel = suc index;
    seed_on_password = false;
    seed_field_sel = 0;
    screen = on_seed_board_fields;
    status = codes "Added a board.";
  }

  abbrev pub seed_add : Editor docs → Option (Editor docs)
  seed_add e = docs.seed_board_add e.doc (codes "New board") >>= λ added. some (seed_added e added)

  abbrev pub seed_remove : Editor docs → Editor docs
  seed_remove e =
      if not e.seed_on_password && ltb 0 (length (docs.seed_board_names e.doc))
      then to_screen docs e on_confirm_remove_seed_board
      else e

  abbrev pub seed_key : KeyCode → docs.World → Editor docs → Option (Editor docs)
  seed_key up w e = some (seed_up e)
  seed_key down w e = some (seed_down e)
  seed_key enter w e = some (seed_enter e)
  seed_key esc w e = some (to_screen docs e on_sections)
  seed_key left w e = some (to_screen docs e on_sections)
  seed_key (char c) w e =
      if c == b'k'
      then some (seed_up e)
      else if c == b'j'
      then some (seed_down e)
      else if c == b'a'
      then seed_add e
      else if c == b'd'
      then some (seed_remove e)
      else if c == b's'
      then some (open_save docs w e)
      else if c == b'q'
      then some (to_screen docs e on_sections)
      else some e
  seed_key _ w e = some e

  abbrev pub choose_for_board : Field → Editor docs → Text → Editor docs
  choose_for_board f e next = record e {
    doc = docs.seed_board_set e.doc (seed_board_index docs e) f.key next;
    status = f.key ++ (codes " = " ++ next);
  }

  abbrev pub begin_board_kind : FieldKind → Field → Editor docs → Option (Editor docs)
  begin_board_kind (enum_ options) f e =
      let current = docs.seed_board_get e.doc (seed_board_index docs e) f.key in
      next_option (display_or_empty current) options >>= λ next. some (choose_for_board f e next)
  begin_board_kind _ f e = some (record e {
    input = display_or_empty (docs.seed_board_get e.doc (seed_board_index docs e) f.key);
    seed_sel = suc (seed_board_index docs e);
    edit_from = from_seed_board;
    screen = on_edit;
    status = f.help;
  })

  abbrev pub begin_board_field : Option Field → Editor docs → Option (Editor docs)
  begin_board_field none e = some e
  begin_board_field (some f) e = begin_board_kind f.kind f e

  abbrev pub begin_seed_board_edit : Editor docs → Option (Editor docs)
  begin_seed_board_edit e = begin_board_field (seed_board_field docs e) e

  abbrev pub board_fields_up : Editor docs → Editor docs
  board_fields_up e = record e { seed_field_sel = above docs e.seed_field_sel }

  abbrev pub board_fields_down : Editor docs → Editor docs
  board_fields_down e = record e {
    seed_field_sel = below docs e.seed_field_sel (length seed_board_fields);
  }

  abbrev pub board_fields_key : KeyCode → docs.World → Editor docs → Option (Editor docs)
  board_fields_key up w e = some (board_fields_up e)
  board_fields_key down w e = some (board_fields_down e)
  board_fields_key enter w e = begin_seed_board_edit e
  board_fields_key esc w e = some (to_screen docs e on_seed_boards)
  board_fields_key left w e = some (to_screen docs e on_seed_boards)
  board_fields_key (char c) w e =
      if c == b'k'
      then some (board_fields_up e)
      else if c == b'j'
      then some (board_fields_down e)
      else if c == b's'
      then some (open_save docs w e)
      else if c == b'q'
      then some (to_screen docs e on_seed_boards)
      else some e
  board_fields_key _ w e = some e

  abbrev pub removed_board : Editor docs → Editor docs
  removed_board e =
      let index = seed_board_index docs e in
      let name = text_or_empty (get_elem? (docs.seed_board_names e.doc) index) in
      let doc = docs.seed_board_remove e.doc index in
      record (at_seed_row (min e.seed_sel (seed_row_count doc - 1)) e) {
        doc = doc;
        screen = on_seed_boards;
        status = codes "Removed " ++ (name ++ codes ".");
      }

  abbrev pub kept_board : Editor docs → Editor docs
  kept_board e = record e { screen = on_seed_boards; status = codes "Kept." }

  abbrev pub confirm_remove_board_key : KeyCode → Editor docs → Editor docs
  confirm_remove_board_key (char c) e = if c == b'y' then removed_board e else kept_board e
  confirm_remove_board_key _ e = kept_board e
