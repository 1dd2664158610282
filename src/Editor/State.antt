-- ===== src/Editor/State.antt =====
-- src/cfg/editor.rs: the editor's state, what it shows, and how it is left.
use bbs_rs.Prelude.{
  ℕ, suc, ◌+◌, ◌-◌, Bool, true, false, List, [], ◌∷◌, ◌++◌, Option, none, some, Text, codes, length,
  get_elem?, min, ltb, if◌then◌else◌, ◌%◌, text_eq,
}
use bbs_rs.Editor.Schema.{Field, str, Section, fields_kind, setting, door_fields, seed_board_fields}
use bbs_rs.Editor.Sections.{sections}
use bbs_rs.Editor.Docs.{Docs, FieldValue, display, display_or_empty, Issue, SeedStatus, will_seed}

-- `ART_SCREEN_KEYS` of src/app/mod.rs
abbrev art_key : Text → Text → Text × Text
art_key key label = (key, label)

unfoldable pub art_screen_keys : List (Text × Text)
art_screen_keys =
    art_key (codes "main_menu") (codes "Main menu")
    ∷ art_key (codes "bulletins") (codes "Bulletins")
    ∷ art_key (codes "board_list") (codes "Board list")
    ∷ art_key (codes "message_list") (codes "Message list")
    ∷ art_key (codes "mailbox") (codes "Mailbox")
    ∷ art_key (codes "who_online") (codes "Who's online")
    ∷ art_key (codes "profile") (codes "Profile")
    ∷ art_key (codes "stats") (codes "Stats")
    ∷ art_key (codes "search") (codes "Search results")
    ∷ art_key (codes "file_areas") (codes "File areas")
    ∷ art_key (codes "file_list") (codes "File list")
    ∷ art_key (codes "keys") (codes "SSH keys")
    ∷ art_key (codes "help") (codes "Help")
    ∷ art_key (codes "admin") (codes "Admin")
    ∷ []

unfoldable pub art_file_field : Field
art_file_field =
    setting "file" "Art file" str
      "A file name under the art directory, e.g. boards.ans. Blank removes the art for this screen."

pub data Screen : Type 0 where
  on_sections on_fields on_edit on_doors on_art_screens on_seed_boards : Screen
  on_seed_board_fields on_confirm_remove_seed_board on_door_fields : Screen
  on_confirm_remove_door on_save on_confirm_quit : Screen

pub data EditFrom : Type 0 where
  from_section from_door from_art_screen from_seed_board : EditFrom

pub data Action : Type 0 where
  stay quit : Action

-- `self.section()` is clamped into the list, so this stands for no section of the schema.
abbrev no_section : Section
no_section = record {
  name = [];
  title = [];
  help = [];
  restart_only = false;
  kind = fields_kind;
  fields = [];
}

abbrev pub section_or : Option Section → Section
section_or none = no_section
section_or (some s) = s

module _ (docs : Docs) where
  pub record Editor : Type 0 where
    pub doc : docs.Doc
    pub screen : Screen
    pub section_sel : ℕ
    pub field_sel : ℕ
    pub input : Text
    pub status : Text
    pub issues : List Issue
    pub door_sel : ℕ
    pub door_field_sel : ℕ
    pub art_sel : ℕ
    pub seed_sel : ℕ
    pub seed_field_sel : ℕ
    pub seed_on_password : Bool
    pub seed_status : SeedStatus
    pub edit_from : EditFrom

  abbrev pub new : docs.Doc → docs.World → Editor
  new doc w = record {
    doc = doc;
    screen = on_sections;
    section_sel = 0;
    field_sel = 0;
    input = [];
    status =
        if docs.is_new doc w
        then codes "New config — will be created at " ++ docs.path doc
        else codes "Editing " ++ docs.path doc;
    issues = [];
    door_sel = 0;
    door_field_sel = 0;
    art_sel = 0;
    seed_sel = 0;
    seed_field_sel = 0;
    seed_on_password = true;
    seed_status = will_seed;
    edit_from = from_section;
  }

  -- The section, the field, and the look-ups in the document
  abbrev pub section : Editor → Section
  section e = section_or (get_elem? sections (min e.section_sel (length sections - 1)))

  abbrev pub field : Editor → Option Field
  field e = get_elem? (section e).fields e.field_sel

  abbrev pub door_field : Editor → Option Field
  door_field e = get_elem? door_fields e.door_field_sel

  abbrev pub seed_board_field : Editor → Option Field
  seed_board_field e = get_elem? seed_board_fields e.seed_field_sel

  abbrev or_default : Option FieldValue → Text → Text → Option FieldValue
  or_default none s k = docs.default_of s k
  or_default (some v) s k = some v

  abbrev pub effective : docs.Doc → Text → Text → Option FieldValue
  effective doc s k = or_default (docs.get doc s k) s k

  abbrev shown : Option FieldValue → Editor → Text → Text × Bool
  shown (some v) e key = (display v, true)
  shown none e key = (display_or_empty (effective e.doc (section e).name key), false)

  abbrev pub shown_value : Editor → Text → Text × Bool
  shown_value e key = shown (docs.get e.doc (section e).name key) e key

  abbrev door_shown : Option FieldValue → Text × Bool
  door_shown (some v) = (display v, true)
  door_shown none = ([], false)

  abbrev pub door_shown_value : Editor → Text → Text × Bool
  door_shown_value e key = door_shown (docs.door_get e.doc e.door_sel key)

  -- What a handler returns, with the files; `none` is a panic.
  abbrev pub Handled : Type 0
  Handled = Option (Action × (Editor × docs.World))

  -- A handler that goes on and leaves the files alone.
  abbrev pub go_on : docs.World → Option Editor → Handled
  go_on w none = none
  go_on w (some e) = some (stay, (e, w))

  abbrev pub with_status : Editor → Text → Editor
  with_status e s = record e { status = s }

  abbrev pub to_screen : Editor → Screen → Editor
  to_screen e s = record e { screen = s }

  -- Up and down a list of `n` rows
  abbrev pub above : ℕ → ℕ
  above sel = sel - 1

  abbrev pub below : ℕ → ℕ → ℕ
  below sel n = if ltb (sel + 1) n then sel + 1 else sel

  abbrev pub open_save : docs.World → Editor → Editor
  open_save w e = record e { issues = docs.validate e.doc w; screen = on_save }

-- The key before `(idx + 1) % len` among the options
abbrev position_from : ℕ → Text → List Text → Option ℕ
position_from n s [] = none
position_from n s (o ∷ os) =
    let rest = position_from (suc n) s os in if text_eq o s then some n else rest

abbrev pub position_or_first : Text → List Text → ℕ
position_or_first s os = elim (position_from 0 s os) [ none ↦ 0 | some n ↦ n ]

-- The option after the current one, in a ring; without options the remainder panics.
abbrev pub next_option : Text → List Text → Option Text
next_option s [] = none
next_option s (o ∷ os) = get_elem? (o ∷ os) ((position_or_first s (o ∷ os) + 1) % length (o ∷ os))
