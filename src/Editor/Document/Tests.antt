-- ===== src/Editor/Document/Tests.antt =====
-- src/cfg/doc.rs: runs on documents two levels deep.
use bbs_rs.Prelude.{ℕ, ◌≡◌, refl, true, List, [], ◌∷◌, Option, none, some, Text, codes, arith}
use bbs_rs.Input.{char}
use bbs_rs.Editor.Schema.{door_fields, seed_board_fields}
use bbs_rs.Editor.Sections.{sections}
use bbs_rs.Editor.Docs.{str_value, will_seed}
use bbs_rs.Editor.Toml.{Disk}
use bbs_rs.Editor.Document.{ConfigDoc, seed_board_names, seed_board_add, seed_board_set}
use bbs_rs.Editor.Document.Doors.{config_doc, door_names}
use bbs_rs.Editor.Document.Counts.{config_doc-DoorLaws}
use bbs_rs.Editor.State.{Editor, on_doors, on_seed_boards, art_screen_keys, Action, new}
use bbs_rs.Editor.Keys.{on_key}
use bbs_rs.Editor.Laws.Invariant.{Inv}
use bbs_rs.Editor.Laws.Saving.{KeepsIssues, Outcome}
use bbs_rs.Editor.Laws.Config.{on_key-config_doc}
use bbs_rs.Editor.Document.Small.{Cell, plain, headed, Node, table, tables, small, small-TomlLaws}

-- The disk takes every write, and keeps the last text.
abbrev disk : Disk small
disk = record {
  World = Text;
  exists = λ p w. true;
  copy = λ from to w. (none, w);
  write = λ p s w. (none, s);
  rename = λ from to w. (none, w);
  parent = λ p. none;
  backup_of = λ p. p;
  temporary_of = λ p. p;
  quoted = λ s. s;
  default_of = λ s k. none;
  validate = λ p d w. [];
  seed_status = λ u d w. will_seed;
}

disk_fails : KeepsIssues (config_doc small disk)
disk_fails doc w message e = refl

abbrev door : Text → List (Text × Cell)
door name = (codes "name", plain (str_value name)) ∷ []

abbrev config : Node → ConfigDoc small
config boards = record {
  path = codes "bbs.toml";
  doc =
      (codes "seed", boards)
      ∷ (codes "doors", tables (door (codes "loid") ∷ door (codes "chess") ∷ []))
      ∷ [];
  original = [];
}

abbrev at_doors : Editor (config_doc small disk)
at_doors = record (new (config_doc small disk) (config (table [])) []) {
  screen = on_doors;
  door_sel = 1;
}

-- The second door goes up; a board is added to an array, and a `[[seed.boards]]` panics.
abbrev doors_shown : Option (Action × (Editor (config_doc small disk) × Text)) → List Text × ℕ
doors_shown none = ([], 0)
doors_shown (some (a, (e, w))) = (door_names small e.doc, e.door_sel)

door_goes_up :
    doors_shown (on_key (config_doc small disk) (char b'K') [] at_doors)
    ≡ (codes "chess" ∷ codes "loid" ∷ [], 0)
door_goes_up = refl

abbrev renamed_board : Option (ℕ × ConfigDoc small) → List Text
renamed_board none = []
renamed_board (some (i, c)) =
    seed_board_names small (seed_board_set small c i (codes "name") (codes "News"))

board_is_added :
    renamed_board (seed_board_add small (config (table [])) (codes "New board")) ≡ codes "News" ∷ []
board_is_added = refl

tables_of_boards_panic :
    on_key
      (config_doc small disk)
      (char b'a')
      []
      (record (new (config_doc small disk) (config (table ((codes "boards", headed) ∷ []))) []) {
        screen = on_seed_boards;
      })
    ≡ none
tables_of_boards_panic = refl

at_doors-Inv : Inv (config_doc small disk) [] at_doors
unfolding sections art_screen_keys door_fields seed_board_fields
at_doors-Inv = ((omega arith, omega arith, omega arith, omega arith, omega arith), λ q. cc)

on_key-config_doc_example :
    Outcome
      (config_doc small disk)
      (config_doc-DoorLaws small small-TomlLaws disk)
      disk_fails
      (char b'K')
      []
      at_doors
      (on_key (config_doc small disk) (char b'K') [] at_doors)
on_key-config_doc_example =
    on_key-config_doc small small-TomlLaws disk disk_fails (char b'K') [] at_doors at_doors-Inv
