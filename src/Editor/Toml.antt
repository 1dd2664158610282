-- ===== src/Editor/Toml.antt =====
-- Crate toml_edit and the files, the parameters of the document of src/cfg/doc.rs.
use bbs_rs.Prelude.{Bool, List, Option, Text}
use bbs_rs.Editor.Docs.{FieldValue, Issue, SeedStatus}

-- The documents of toml_edit: items at keys, tables, arrays of tables and arrays of values. An
-- `item_put` into what is no table panics, `none`; `item_remove` and `inline_put` are `none` there.
pub record Toml : Type 1 where
  pub Doc : Type 0
  pub Item : Type 0
  pub Table : Type 0
  pub to_text : Doc → Text
  pub get : Doc → Text → Option Item
  pub put : Doc → Text → Item → Doc
  pub item_get : Item → Text → Option Item
  pub item_put : Item → Text → Item → Option Item
  pub item_remove : Item → Text → Option (Bool × Item)
  pub is_empty : Item → Bool
  pub as_value : Item → Option FieldValue
  pub as_str : Item → Option Text
  pub rendered : Item → Text
  pub value : FieldValue → Item
  pub array : Item → Option (List Item)
  pub of_array : List Item → Item
  pub inline : List (Text × Text) → Item
  pub inline_get : Item → Text → Option Item
  pub inline_put : Item → Text → Text → Option Item
  pub new_table : Table
  pub of_table : Table → Item
  pub table_get : Table → Text → Option Item
  pub table_put : Table → Text → Item → Table
  pub tables : Item → Option (List Table)
  pub of_tables : List Table → Item

-- The files, as std::fs has them; `some` is the message of an error.
pub record Disk (toml : Toml) : Type 1 where
  pub World : Type 0
  pub exists : Text → World → Bool
  pub copy : Text → Text → World → Option Text × World
  pub write : Text → Text → World → Option Text × World
  pub rename : Text → Text → World → Option Text × World
  pub parent : Text → Option Text
  pub backup_of : Text → Text
  pub temporary_of : Text → Text
  pub quoted : Text → Text
  pub default_of : Text → Text → Option FieldValue
  pub validate : Text → toml.Doc → World → List Issue
  pub seed_status : Text → Text → World → SeedStatus
