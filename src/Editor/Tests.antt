-- ===== src/Editor/Tests.antt =====
-- src/cfg/editor.rs: runs on a document of one setting, one door and no board.
use bbs_rs.Prelude.{
  ℕ, ◌==◌, ◌≡◌, ◌≤◌, refl, Bool, true, false, not, [], ◌∷◌, none, some, Text, codes, text_eq,
  if◌then◌else◌, arith,
}
use bbs_rs.Input.{enter}
use bbs_rs.Editor.Schema.{door_fields, seed_board_fields}
use bbs_rs.Editor.Sections.{sections}
use bbs_rs.Editor.Docs.{Docs, str_value, display, Issue, will_seed}
use bbs_rs.Editor.State.{Editor, on_save, on_sections, art_screen_keys, stay, new}
use bbs_rs.Editor.Keys.{on_key}
use bbs_rs.Editor.Laws.Invariant.{DoorLaws, Inv}
use bbs_rs.Editor.Laws.Saving.{KeepsIssues}
use bbs_rs.Editor.Laws.Leaving.{on_key-Quits, Quits}

-- A document is its text and the text last saved; a file that is "full" takes no save, and an empty
-- document is a blocking problem.
record Page : Type 0 where
  content : Text
  original : Text

abbrev is_nothing : Text → Bool
is_nothing [] = true
is_nothing (_ ∷ _) = false

abbrev empty_issue : Issue
empty_issue = record { section = codes "bbs"; message = codes "empty"; blocking = true }

abbrev pages : Docs
pages = record {
  Doc = Page;
  World = Text;
  path = λ d. codes "bbs.toml";
  parent = λ s. none;
  quoted = λ s. s;
  is_new = λ d w. is_nothing w;
  is_dirty = λ d. not (text_eq d.content d.original);
  get = λ d s k. some (str_value d.content);
  default_of = λ s k. none;
  set = λ d s k v. some (record d { content = display v });
  unset = λ d s k. (true, record d { content = [] });
  seed_board_names = λ d. [];
  seed_board_get = λ d i k. none;
  seed_board_set = λ d i k v. d;
  seed_board_add = λ d s. none;
  seed_board_remove = λ d i. d;
  art_screen_get = λ d k. none;
  art_screen_set = λ d k v. some d;
  art_screen_unset = λ d k. (false, d);
  door_names = λ d. codes "Lord" ∷ [];
  door_get = λ d i k. none;
  door_set = λ d i k v. d;
  door_add = λ d s c. (0, d);
  door_remove = λ d i. d;
  door_move = λ d i u. if i == 0 then some (none, d) else none;
  validate = λ d w. if is_nothing d.content then empty_issue ∷ [] else [];
  save = λ d w.
      if text_eq w (codes "full")
      then (some (codes "no space"), (d, w))
      else (none, (record d { original = d.content }, d.content));
  seed_status = λ u d w. will_seed;
}

pages_doors : DoorLaws pages
pages_doors = record {
  of_set = λ doc doc' s k v q. refl;
  of_unset = λ doc s k. refl;
  of_seed_board_set = λ doc i k v. refl;
  of_seed_board_add = λ doc name added q. refl;
  of_seed_board_remove = λ doc i. refl;
  of_art_screen_set = λ doc doc' k file q. refl;
  of_art_screen_unset = λ doc k. refl;
  of_door_set = λ doc i k v. refl;
  of_save = λ doc w. refl;
  of_door_add = λ doc name command. omega arith;
  of_door_move = λ doc i is_up le.
      let first : (i == 0) ≡ true = ground arith in (none, doc, rw first refl, refl, λ j q. cc q);
}

pages_fail : KeepsIssues pages
pages_fail doc w message e = ground (arith, e)

abbrev page : Page
page = record { content = codes "Home"; original = codes "Hom" }

abbrev at_start : Editor pages
at_start = new pages page (codes "Hom")

abbrev at_save : Editor pages
at_save = record at_start { screen = on_save }

at_save-Inv : Inv pages (codes "Hom") at_save
unfolding sections art_screen_keys door_fields seed_board_fields
at_save-Inv = ((omega arith, omega arith, omega arith, omega arith, omega arith), λ _. refl)

saved_page :
    on_key pages enter (codes "Hom") at_save
    ≡ some (
      stay,
      (
        record at_save {
          doc = record page { original = codes "Home" };
          screen = on_sections;
          status = codes "Saved bbs.toml";
        },
        codes "Home",
      ),
    )
saved_page = refl

on_key-Quits_example : (k : ℕ) × (k ≤ 5) × Quits pages (codes "Hom") k at_save
on_key-Quits_example = on_key-Quits pages (codes "Hom") at_save
