-- ===== src/Editor/Document/Doors.antt =====
-- src/cfg/doc.rs: the doors of the document, the file it is written to, and all that the editor asks
-- of it. The validation and the shipped defaults, which read the whole configuration, are parameters.
use bbs_rs.Prelude.{
  ℕ, zero, suc, ◌+◌, Bool, true, false, not, List, [], ◌∷◌, ◌++◌, Option, none, some, ◌>>=◌, map,
  length, get_elem?, set, Text, codes, text_eq, ltb, leb, if◌then◌else◌, pos,
}
use bbs_rs.Editor.Docs.{Docs, FieldValue, int_value, str_value, list_value}
use bbs_rs.Editor.Toml.{Toml, Disk}
use bbs_rs.Editor.Document.{
  ConfigDoc, with_doc, or_else, name_or, shown, remove_at, swap, get, set_value, unset,
  seed_board_names, seed_board_get, seed_board_set, seed_board_add, seed_board_remove,
  art_screen_get, art_screen_set, art_screen_unset,
}

-- Where a door moves to
abbrev pub target : Bool → ℕ → ℕ → Option ℕ
target true zero n = none
target true (suc i) n = some i
target false i n = if ltb (i + 1) n then some (i + 1) else none

module _ (toml : Toml) where
  -- The doors
  abbrev pub doors : toml.Doc → Option (List (toml.Table))
  doors d = toml.get d (codes "doors") >>= λ i. toml.tables i

  abbrev pub put_doors : ConfigDoc toml → List (toml.Table) → ConfigDoc toml
  put_doors c ts = with_doc toml c (toml.put c.doc (codes "doors") (toml.of_tables ts))

  abbrev pub all_doors : toml.Doc → List (toml.Table)
  all_doors d = or_else [] (doors d)

  abbrev pub door_names : ConfigDoc toml → List Text
  door_names c =
      map (λ t. name_or (toml.table_get t (codes "name") >>= λ n. toml.as_str n)) (all_doors c.doc)

  abbrev door_get : ConfigDoc toml → ℕ → Text → Option FieldValue
  door_get c i k =
      get_elem? (all_doors c.doc) i >>= λ t. toml.table_get t k >>= λ v. some (shown toml v)

  abbrev pub changed_door :
      ConfigDoc toml → ℕ → Text → FieldValue → Option (toml.Table) → ConfigDoc toml
  changed_door c i k v none = c
  changed_door c i k v (some t) =
      put_doors c (set (all_doors c.doc) i (toml.table_put t k (toml.value v)))

  abbrev pub door_set : ConfigDoc toml → ℕ → Text → FieldValue → ConfigDoc toml
  door_set c i k v = changed_door c i k v (get_elem? (all_doors c.doc) i)

  abbrev pub new_door : Text → Text → toml.Table
  new_door name command =
      let t = toml.table_put (toml.new_table) (codes "name") (toml.value (str_value name)) in
      let t' = toml.table_put t (codes "command") (toml.value (str_value command)) in
      let t'' = toml.table_put t' (codes "args") (toml.value (list_value [])) in
      toml.table_put t'' (codes "time_limit_secs") (toml.value (int_value (pos 0)))

  abbrev pub door_add : ConfigDoc toml → Text → Text → ℕ × ConfigDoc toml
  door_add c name command =
      (length (all_doors c.doc), put_doors c (all_doors c.doc ++ new_door name command ∷ []))

  abbrev pub door_remove : ConfigDoc toml → ℕ → ConfigDoc toml
  door_remove c i =
      if leb (length (all_doors c.doc)) i then c else put_doors c (remove_at i (all_doors c.doc))

  abbrev pub door_moved :
      ConfigDoc toml → ℕ → List (toml.Table) → Option ℕ → Option (Option ℕ × ConfigDoc toml)
  door_moved c i ts none = some (none, c)
  door_moved c i ts (some to) = swap i to ts >>= λ ts'. some (some to, put_doors c ts')

  abbrev pub move_door :
      ConfigDoc toml → ℕ → Bool → Option (List (toml.Table)) → Option (Option ℕ × ConfigDoc toml)
  move_door c i is_up none = some (none, c)
  move_door c i is_up (some ts) = door_moved c i ts (target is_up i (length ts))

  abbrev pub door_move : ConfigDoc toml → ℕ → Bool → Option (Option ℕ × ConfigDoc toml)
  door_move c i is_up = move_door c i is_up (doors c.doc)

module _ (toml : Toml) (disk : Disk toml) where
  -- `save`: each step ends it where it fails.
  abbrev pub written :
      ConfigDoc toml → Text → Option Text × disk.World → Option Text × (ConfigDoc toml × disk.World)
  written c text (some message, w) = (some message, (c, w))
  written c text (none, w) = (none, (record c { original = text }, w))

  abbrev pub renamed :
      ConfigDoc toml → Text → Option Text × disk.World → Option Text × (ConfigDoc toml × disk.World)
  renamed c text (some message, w) = (some message, (c, w))
  renamed c text (none, w) = written c text (disk.rename (disk.temporary_of c.path) c.path w)

  abbrev pub backed_up :
      ConfigDoc toml → Text → Option Text × disk.World → Option Text × (ConfigDoc toml × disk.World)
  backed_up c text (some message, w) = (some message, (c, w))
  backed_up c text (none, w) = renamed c text (disk.write (disk.temporary_of c.path) text w)

  abbrev pub save : ConfigDoc toml → disk.World → Option Text × (ConfigDoc toml × disk.World)
  save c w =
      let backup =
        if disk.exists c.path w then disk.copy c.path (disk.backup_of c.path) w else (none, w) in
      backed_up c (toml.to_text c.doc) backup

  abbrev pub config_doc : Docs
  config_doc = record {
    Doc = ConfigDoc toml;
    World = disk.World;
    path = λ c. c.path;
    parent = disk.parent;
    quoted = disk.quoted;
    is_new = λ c w. not (disk.exists c.path w);
    is_dirty = λ c. not (text_eq (toml.to_text c.doc) c.original);
    get = get toml;
    default_of = disk.default_of;
    set = set_value toml;
    unset = unset toml;
    seed_board_names = seed_board_names toml;
    seed_board_get = seed_board_get toml;
    seed_board_set = seed_board_set toml;
    seed_board_add = seed_board_add toml;
    seed_board_remove = seed_board_remove toml;
    art_screen_get = art_screen_get toml;
    art_screen_set = art_screen_set toml;
    art_screen_unset = art_screen_unset toml;
    door_names = door_names toml;
    door_get = door_get toml;
    door_set = door_set toml;
    door_add = door_add toml;
    door_remove = door_remove toml;
    door_move = door_move toml;
    validate = λ c w. disk.validate c.path c.doc w;
    save = save;
    seed_status = disk.seed_status;
  }
