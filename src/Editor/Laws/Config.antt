-- ===== src/Editor/Laws/Config.antt =====
-- src/cfg/editor.rs and doc.rs: the editor on the document over toml_edit.
use bbs_rs.Input.{KeyCode}
use bbs_rs.Editor.Toml.{Toml, Disk}
use bbs_rs.Editor.Document.Doors.{config_doc}
use bbs_rs.Editor.Document.Laws.{TomlLaws}
use bbs_rs.Editor.Document.Counts.{config_doc-DoorLaws}
use bbs_rs.Editor.State.{Editor}
use bbs_rs.Editor.Keys.{on_key}
use bbs_rs.Editor.Laws.Invariant.{Inv}
use bbs_rs.Editor.Laws.Saving.{KeepsIssues, Outcome, on_key-Outcome}

-- From an editor whose selections are in range and whose issues are fresh, every key on every
-- screen either panics inside the document, or returns and leaves such an editor. The first is so
-- only where the document refuses what the key writes: the setting at the selection, on Enter
-- among the settings or at the end of an edit, the art of the screen at the selection, at the end
-- of an edit, or a new board, on `a` among the seeded boards. No other step panics; in particular,
-- no swap of two doors is out of range. A key that returns writes the files only from the save
-- screen, of a document without a blocking problem, and quits only without changes or on a
-- confirmation. It is taken of toml_edit that a key that is put is read back and no other changes,
-- and that an array of tables is read as it was put and has no keys, and of a save that fails that
-- it leaves the problems of the document as they were.
pub on_key-config_doc :
    (toml : Toml) (laws : TomlLaws toml) (disk : Disk toml)
    (fails : KeepsIssues (config_doc toml disk)) (key : KeyCode) (w : disk.World)
    (e : Editor (config_doc toml disk))
    → Inv (config_doc toml disk) w e
    → Outcome
        (config_doc toml disk)
        (config_doc-DoorLaws toml laws disk)
        fails
        key
        w
        e
        (on_key (config_doc toml disk) key w e)
on_key-config_doc toml laws disk fails =
    on_key-Outcome (config_doc toml disk) (config_doc-DoorLaws toml laws disk) fails
