-- ===== src/Editor/Docs.antt =====
-- src/cfg/doc.rs: the document that the editor edits, as an interface.
use bbs_rs.Prelude.{
  ℕ, Bool, true, false, List, [], ◌∷◌, ◌++◌, Option, none, some, Text, codes, ℤ, to_string,
}

pub data FieldValue : Type 0 where
  bool_value : Bool → FieldValue
  int_value : ℤ → FieldValue
  str_value : Text → FieldValue
  list_value : List Text → FieldValue

-- `join`
abbrev join : Text → List Text → Text
join sep [] = []
join sep (s ∷ []) = s
join sep (s ∷ t ∷ ss) = s ++ (sep ++ join sep (t ∷ ss))

abbrev bool_text : Bool → Text
bool_text true = codes "true"
bool_text false = codes "false"

abbrev pub display : FieldValue → Text
display (bool_value b) = bool_text b
display (int_value n) = to_string n
display (str_value s) = s
display (list_value ss) = join (codes ", ") ss

-- `map(|v| v.display()).unwrap_or_default()`
abbrev pub display_or_empty : Option FieldValue → Text
display_or_empty none = []
display_or_empty (some v) = display v

pub record Issue : Type 0 where
  pub section : Text
  pub message : Text
  pub blocking : Bool

-- src/cfg/seed.rs
pub data SeedStatus : Type 0 where
  will_seed : SeedStatus
  already_seeded : (boards : ℕ) → SeedStatus
  unknown : (reason : Text) → SeedStatus

-- `ConfigDoc`, whose text crate toml_edit keeps. The files are the world; only `save` changes them.
-- `quoted` is the `Debug` text of a string. The operations that can panic return an option, whose
-- `none` is the panic: `set` and `art_screen_set` where the key of a table holds no table,
-- `seed_board_add` where it holds no array, and `door_move` where no door is at the index.
pub record Docs : Type 1 where
  pub Doc : Type 0
  pub World : Type 0
  pub path : Doc → Text
  pub parent : Text → Option Text
  pub quoted : Text → Text
  pub is_new : Doc → World → Bool
  pub is_dirty : Doc → Bool
  pub get : Doc → Text → Text → Option FieldValue
  pub default_of : Text → Text → Option FieldValue
  pub set : Doc → Text → Text → FieldValue → Option Doc
  pub unset : Doc → Text → Text → Bool × Doc
  pub seed_board_names : Doc → List Text
  pub seed_board_get : Doc → ℕ → Text → Option FieldValue
  pub seed_board_set : Doc → ℕ → Text → Text → Doc
  pub seed_board_add : Doc → Text → Option (ℕ × Doc)
  pub seed_board_remove : Doc → ℕ → Doc
  pub art_screen_get : Doc → Text → Option Text
  pub art_screen_set : Doc → Text → Text → Option Doc
  pub art_screen_unset : Doc → Text → Bool × Doc
  pub door_names : Doc → List Text
  pub door_get : Doc → ℕ → Text → Option FieldValue
  pub door_set : Doc → ℕ → Text → FieldValue → Doc
  pub door_add : Doc → Text → Text → ℕ × Doc
  pub door_remove : Doc → ℕ → Doc
  pub door_move : Doc → ℕ → Bool → Option (Option ℕ × Doc)
  pub validate : Doc → World → List Issue
  pub save : Doc → World → Option Text × (Doc × World)
  pub seed_status : Text → Text → World → SeedStatus
