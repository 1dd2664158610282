-- ===== src/Editor/Schema.antt =====
-- src/cfg/schema.rs: the settings of the configuration file, section by section.
pub mod Network
pub mod Features
pub mod Limits
pub mod Looks
pub mod Web
use Prim.Native.String.{String}
use bbs_rs.Prelude.{ℕ, Bool, true, false, List, [], ◌∷◌, Text, codes, Option, find, text_eq}

-- No bound of the schema is negative.
pub data FieldKind : Type 0 where
  bool : FieldKind
  int : (min max : ℕ) → FieldKind
  str path : FieldKind
  enum_ : List Text → FieldKind
  str_list : FieldKind

pub record Field : Type 0 where
  pub key : Text
  pub label : Text
  pub kind : FieldKind
  pub help : Text

pub data SectionKind : Type 0 where
  fields_kind doors_kind art_screens_kind seed_boards_kind : SectionKind

pub record Section : Type 0 where
  pub name : Text
  pub title : Text
  pub help : Text
  pub restart_only : Bool
  pub kind : SectionKind
  pub fields : List Field

abbrev pub setting : String → String → FieldKind → String → Field
setting k l kd h = record { key = codes k; label = codes l; kind = kd; help = codes h }

abbrev pub roles : List Text
roles = codes "guest" ∷ codes "user" ∷ codes "admin" ∷ []

abbrev pub drop_files : List Text
drop_files = codes "" ∷ codes "door.sys" ∷ codes "dorinfo1.def" ∷ []

abbrev pub presets : List Text
presets = codes "classic" ∷ codes "mono" ∷ codes "amber" ∷ codes "matrix" ∷ []

unfoldable pub door_fields : List Field
door_fields =
    setting "name" "Menu label" str "What callers see in the Doors menu."
    ∷ setting "command" "Command" path
        "The program to run. It gets a pseudo-terminal and the caller's details in the environment (BBS_USER, BBS_TIME_LEFT_SECS, ...)."
    ∷ setting "args" "Arguments" str_list
        "Passed to the program, comma-separated here. Each is one argument — they are not run through a shell, so quoting and globs do not apply."
    ∷ setting "cwd" "Working directory" path
        "Where the program runs, and where a drop file is written. Blank uses the BBS's own working directory."
    ∷ setting "time_limit_secs" "Time limit (s)" (int 0 86400)
        "Kill the program after this long. 0 means no limit."
    ∷ setting "drop_file" "Drop file" (enum_ drop_files)
        "Classic BBS handoff file written before launch, for doors that expect one. Blank writes none."
    ∷ []

unfoldable pub seed_board_fields : List Field
seed_board_fields =
    setting "name" "Board name" str "The board's name, shown in the board list."
    ∷ setting "description" "Description" str "A one-line description shown beside the name."
    ∷ setting "min_read" "Min role to read" (enum_ roles)
        "The lowest role that can see this board. guest lets anyone read."
    ∷ setting "min_write" "Min role to post" (enum_ roles)
        "The lowest role that can post. user is the usual choice; admin makes a read-only announcement board."
    ∷ []
