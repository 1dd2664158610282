-- ===== src/Editor/Document/Counts.antt =====
-- src/cfg/doc.rs and editor.rs: the document over toml_edit is one that the editor can rely on.
use bbs_rs.Prelude.{
  ℕ, ◌-◌, ◌≡◌, ◌≤◌, refl, sym, ap, ◌∙◌, inl, inr, Bool, List, [], ◌∷◌, ◌++◌, Option, none, some,
  ◌>>=◌, length, length-append, get_elem?, set, Text, codes, trim, Option-cases, arith,
}
use bbs_rs.Editor.Docs.{Docs, FieldValue, str_value}
use bbs_rs.Editor.Toml.{Toml, Disk}
use bbs_rs.Editor.Document.{
  ConfigDoc, with_doc, or_else, put_in, section_or_new, set_value, unset, seed_board_set,
  seed_board_remove, seed_board_add, screens, art_screen_unset, art_screen_put, art_screen_set,
  new_board,
}
use bbs_rs.Editor.Document.Doors.{
  target, doors, put_doors, all_doors, changed_door, door_add, door_moved, move_door, renamed,
  written, backed_up, save, config_doc, new_door,
}
use bbs_rs.Editor.Document.Laws.{
  TomlLaws, length-set, swap-some, target-lt, doors-put_in, Kept, stored-Kept, unset-Kept,
  changed_board-Kept, seed_board_remove-Kept, art_removed-Kept, all_doors-put, count, same_count,
}
use bbs_rs.Editor.Doors.{door_count}
use bbs_rs.Editor.Laws.Invariant.{DoorLaws}

module _ (toml : Toml) (laws : TomlLaws toml) (disk : Disk toml) where
  abbrev docs : Docs
  docs = config_doc toml disk

  set_value-Kept :
      (c c' : ConfigDoc toml) (s k : Text) (v : FieldValue)
      → set_value toml c s k v ≡ some c'
      → Kept toml laws c c'
  set_value-Kept c c' s k v e =
      stored-Kept toml laws c (put_in toml c.doc s k (toml.value v)) c'
        (λ d done. doors-put_in toml laws c.doc d s k (toml.value v) done) e

  seed_board_add-Kept :
      (c : ConfigDoc toml) (name : Text) (added : ℕ × ConfigDoc toml)
      → seed_board_add toml c name ≡ some added
      → Kept toml laws c added.1
  seed_board_add-Kept c name added e =
      let here = toml.item_get (section_or_new toml c.doc (codes "seed")) (codes "boards") in
      elim (Option-cases (toml.array (or_else (toml.of_array []) here))) [
        | inl no_array ↦ cc (rw no_array at e)
        | inr (bs, there) ↦ pushed bs (rw there at e)
      ]
    where
      pushed :
          (bs : List (toml.Item))
          → (put_in toml c.doc
                (codes "seed")
                (codes "boards")
                (toml.of_array (bs ++ new_board toml name ∷ []))
              >>= λ d. some (length bs, with_doc toml c d))
            ≡ some added
          → Kept toml laws c added.1
      pushed bs q =
          let boards = toml.of_array (bs ++ new_board toml name ∷ []) in
          elim (Option-cases (put_in toml c.doc (codes "seed") (codes "boards") boards)) [
            | inl panicked ↦ cc (rw panicked at q)
            | inr (d, done) ↦
                let q' : some (length bs, with_doc toml c d) ≡ some added = rw done at q in
                let same : (length bs, with_doc toml c d) ≡ added = cc q' in
                ap (λ (x : ℕ × ConfigDoc toml). doors toml x.1.doc) (sym same)
                ∙ doors-put_in toml laws c.doc d (codes "seed") (codes "boards") boards done
          ]

  art_screen_put-Kept :
      (c c' : ConfigDoc toml) (k file : Text)
      → art_screen_put toml c k file ≡ some c'
      → Kept toml laws c c'
  art_screen_put-Kept c c' k file e =
      let here = toml.item_get (section_or_new toml c.doc (codes "art")) (codes "screens") in
      let table = or_else (toml.of_table (toml.new_table)) here in
      elim (Option-cases (toml.item_put table k (toml.value (str_value file)))) [
        | inl panicked ↦ cc (rw panicked at e)
        | inr (t, there) ↦
            stored-Kept toml laws c (put_in toml c.doc (codes "art") (codes "screens") t) c'
              (λ d done. doors-put_in toml laws c.doc d (codes "art") (codes "screens") t done)
              (rw there at e)
      ]

  art_screen_unset-Kept :
      (c : ConfigDoc toml) (k : Text) → Kept toml laws c (art_screen_unset toml c k).1
  art_screen_unset-Kept c k =
      art_removed-Kept toml laws c (screens toml c.doc >>= λ t. toml.item_remove t k)

  art_screen_set-Kept :
      (c c' : ConfigDoc toml) (k file : Text)
      → art_screen_set toml c k file ≡ some c'
      → Kept toml laws c c'
  art_screen_set-Kept c c' k file e = by_text (trim file) e
    where
      by_text :
          (s : Text)
          → elim s [
            | [] ↦ some (art_screen_unset toml c k).1
            | ch ∷ s ↦ art_screen_put toml c k (ch ∷ s)
          ]
            ≡ some c'
          → Kept toml laws c c'
      by_text [] q =
          let same : (art_screen_unset toml c k).1 ≡ c' = cc q in
          ap (λ (x : ConfigDoc toml). doors toml x.doc) (sym same) ∙ art_screen_unset-Kept c k
      by_text (ch ∷ s) q = art_screen_put-Kept c c' k (ch ∷ s) q

  count-put :
      (c : ConfigDoc toml) (ts : List (toml.Table))
      → door_count docs (put_doors toml c ts) ≡ length ts
  count-put c ts =
      count toml laws disk (put_doors toml c ts) ∙ ap length (all_doors-put toml laws c ts)

  changed_door-count :
      (c : ConfigDoc toml) (i : ℕ) (k : Text) (v : FieldValue) (o : Option (toml.Table))
      → door_count docs (changed_door toml c i k v o) ≡ door_count docs c
  changed_door-count c i k v none = refl
  changed_door-count c i k v (some t) =
      count-put c (set (all_doors toml c.doc) i (toml.table_put t k (toml.value v)))
      ∙ length-set (all_doors toml c.doc) i _
      ∙ sym (count toml laws disk c)

  written-doc :
      (c : ConfigDoc toml) (text : Text) (r : Option Text × disk.World)
      → (written toml disk c text r).1.0.doc ≡ c.doc
  written-doc c text (none, w) = refl
  written-doc c text (some message, w) = refl

  renamed-doc :
      (c : ConfigDoc toml) (text : Text) (r : Option Text × disk.World)
      → (renamed toml disk c text r).1.0.doc ≡ c.doc
  renamed-doc c text (none, w) =
      written-doc c text (disk.rename (disk.temporary_of c.path) c.path w)
  renamed-doc c text (some message, w) = refl

  backed_up-doc :
      (c : ConfigDoc toml) (text : Text) (r : Option Text × disk.World)
      → (backed_up toml disk c text r).1.0.doc ≡ c.doc
  backed_up-doc c text (none, w) = renamed-doc c text (disk.write (disk.temporary_of c.path) text w)
  backed_up-doc c text (some message, w) = refl

  save-doc : (c : ConfigDoc toml) (w : disk.World) → (save toml disk c w).1.0.doc ≡ c.doc
  save-doc c w = backed_up-doc c (toml.to_text c.doc) _

  door_add-last :
      (c : ConfigDoc toml) (name command : Text)
      → (door_add toml c name command).0 ≤ door_count docs (door_add toml c name command).1 - 1
  door_add-last c name command =
      let n = count-put c (all_doors toml c.doc ++ new_door toml name command ∷ []) in
      let l = length-append (all_doors toml c.doc) (new_door toml name command ∷ []) in
      rw n (omega (arith, l))

  abbrev Lands : ConfigDoc toml → Option (Option ℕ × ConfigDoc toml) → Type 0
  Lands c o =
      (to : Option ℕ) × (c' : ConfigDoc toml) × (o ≡ some (to, c'))
      × (door_count docs c' ≡ door_count docs c)
      × ((j : ℕ) → to ≡ some j → j ≤ door_count docs c - 1)

  door_moved-Lands :
      (c : ConfigDoc toml) (i : ℕ) (is_up : Bool) (ts : List (toml.Table))
      → i ≤ length ts - 1
      → door_count docs c ≡ length ts
      → (o : Option ℕ) → target is_up i (length ts) ≡ o
      → Lands c (door_moved toml c i ts o)
  door_moved-Lands c i is_up ts le n none e = (none, c, refl, refl, λ j q. cc q)
  door_moved-Lands c i is_up ts le n (some to) e =
      let (from_there, to_there) = target-lt is_up i to (length ts) le e in
      let (ts', done, same) = swap-some i to ts from_there to_there in
      (
        some to,
        put_doors toml c ts',
        rw done refl,
        count-put c ts' ∙ same ∙ sym n,
        λ j q. let at_to : to ≡ j = cc q in omega arith,
      )

  move_door-Lands :
      (c : ConfigDoc toml) (i : ℕ) (is_up : Bool)
      → i ≤ door_count docs c - 1
      → (o : Option (List (toml.Table))) → doors toml c.doc ≡ o
      → Lands c (move_door toml c i is_up o)
  move_door-Lands c i is_up le none e = (none, c, refl, refl, λ j q. cc q)
  move_door-Lands c i is_up le (some ts) e =
      let n : door_count docs c ≡ length ts =
        count toml laws disk c ∙ ap (λ o. length (or_else [] o)) e in
      door_moved-Lands c i is_up ts (omega (arith, n, le)) n (target is_up i (length ts)) refl

  -- The number of doors is kept as the editor needs it.
  pub config_doc-DoorLaws : DoorLaws docs
  config_doc-DoorLaws = record {
    of_set = λ c c' s k v e. same_count toml laws disk c c' (set_value-Kept c c' s k v e);
    of_unset =
        λ c s k. same_count toml laws disk c (unset toml c s k).1 (unset-Kept toml laws c s k);
    of_seed_board_set = λ c i k v.
        same_count toml laws disk c (seed_board_set toml c i k v)
          (changed_board-Kept toml laws c i _ _);
    of_seed_board_add =
        λ c name added e. same_count toml laws disk c added.1 (seed_board_add-Kept c name added e);
    of_seed_board_remove = λ c i.
        same_count toml laws disk c (seed_board_remove toml c i)
          (seed_board_remove-Kept toml laws c i);
    of_art_screen_set =
        λ c c' k file e. same_count toml laws disk c c' (art_screen_set-Kept c c' k file e);
    of_art_screen_unset = λ c k.
        same_count toml laws disk c (art_screen_unset toml c k).1 (art_screen_unset-Kept c k);
    of_door_set = λ c i k v. changed_door-count c i k v (get_elem? (all_doors toml c.doc) i);
    of_save = λ c w.
        same_count toml laws disk c (save toml disk c w).1.0 (ap (doors toml) (save-doc c w));
    of_door_add = door_add-last;
    of_door_move = λ c i is_up le. move_door-Lands c i is_up le (doors toml c.doc) refl;
  }
