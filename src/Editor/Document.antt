-- ===== src/Editor/Document.antt =====
-- src/cfg/doc.rs: the document over crate toml_edit: its settings, seeded boards and art.
pub mod Doors
pub mod Laws
pub mod Counts
mod Small
mod Tests
use bbs_rs.Prelude.{
  ℕ, zero, suc, ◌+◌, ◌-◌, Bool, true, false, not, List, [], ◌∷◌, ◌++◌, Option, none, some, ◌>>=◌,
  map, length, get_elem?, set, Text, codes, text_eq, trim, ltb, leb, if◌then◌else◌, pos,
}
use bbs_rs.Editor.Docs.{
  Docs, FieldValue, int_value, str_value, list_value, Issue, SeedStatus, display,
}
use bbs_rs.Editor.Toml.{Toml}

abbrev pub or_else : {A : Type 0} → A → Option A → A
or_else a none = a
or_else a (some b) = b

-- `Vec::remove` and `swap`, whose index out of range panics
abbrev pub remove_at {ℓ} : {A : Type ℓ} → ℕ → List A → List A
remove_at i [] = []
remove_at zero (x ∷ xs) = xs
remove_at (suc i) (x ∷ xs) = x ∷ remove_at i xs

abbrev pub swap {ℓ} : {A : Type ℓ} → ℕ → ℕ → List A → Option (List A)
swap i j xs = get_elem? xs i >>= λ a. get_elem? xs j >>= λ b. some (set (set xs i b) j a)

abbrev pub name_or : Option Text → Text
name_or none = codes "(unnamed)"
name_or (some []) = codes "(unnamed)"
name_or (some (c ∷ s)) = c ∷ s

module _ (toml : Toml) where
  pub record ConfigDoc : Type 0 where
    pub path : Text
    pub doc : toml.Doc
    pub original : Text

  abbrev pub with_doc : ConfigDoc → toml.Doc → ConfigDoc
  with_doc c d = record c { doc = d }

  abbrev pub shown : toml.Item → FieldValue
  shown i = or_else (str_value (trim (toml.rendered i))) (toml.as_value i)

  abbrev pub get : ConfigDoc → Text → Text → Option FieldValue
  get c s k = toml.get c.doc s >>= λ t. toml.item_get t k >>= λ i. some (shown i)

  -- `doc[s]`, which is made where it is absent, and `doc[s][k] = i`
  abbrev pub section_or_new : toml.Doc → Text → toml.Item
  section_or_new d s = or_else (toml.of_table (toml.new_table)) (toml.get d s)

  abbrev pub put_in : toml.Doc → Text → Text → toml.Item → Option (toml.Doc)
  put_in d s k i = toml.item_put (section_or_new d s) k i >>= λ t. some (toml.put d s t)

  abbrev pub set_value : ConfigDoc → Text → Text → FieldValue → Option ConfigDoc
  set_value c s k v = put_in c.doc s k (toml.value v) >>= λ d. some (with_doc c d)

  abbrev pub removed_from : ConfigDoc → Text → Option (Bool × toml.Item) → Bool × ConfigDoc
  removed_from c s none = (false, c)
  removed_from c s (some (had, t)) = (had, with_doc c (toml.put c.doc s t))

  abbrev pub unset : ConfigDoc → Text → Text → Bool × ConfigDoc
  unset c s k = removed_from c s (toml.get c.doc s >>= λ t. toml.item_remove t k)

  -- The seeded boards; a table that has the key takes the array back.
  abbrev pub boards : toml.Doc → Option (List (toml.Item))
  boards d =
      toml.get d (codes "seed") >>= λ s. toml.item_get s (codes "boards") >>= λ b. toml.array b

  abbrev pub put_back : ConfigDoc → Option (toml.Doc) → ConfigDoc
  put_back c none = c
  put_back c (some d) = with_doc c d

  abbrev pub put_boards : ConfigDoc → List (toml.Item) → ConfigDoc
  put_boards c bs = put_back c (put_in c.doc (codes "seed") (codes "boards") (toml.of_array bs))

  abbrev pub seed_board_names : ConfigDoc → List Text
  seed_board_names c =
      map (λ b. name_or (toml.inline_get b (codes "name") >>= λ n. toml.as_str n))
        (or_else [] (boards c.doc))

  abbrev pub seed_board_get : ConfigDoc → ℕ → Text → Option FieldValue
  seed_board_get c i k = boards c.doc >>= λ bs. get_elem? bs i >>= λ b. toml.inline_get b k >>= λ v.
      some (str_value (or_else (trim (toml.rendered v)) (toml.as_str v)))

  abbrev pub changed_board : ConfigDoc → ℕ → List (toml.Item) → Option (toml.Item) → ConfigDoc
  changed_board c i bs none = c
  changed_board c i bs (some b) = put_boards c (set bs i b)

  abbrev pub seed_board_set : ConfigDoc → ℕ → Text → Text → ConfigDoc
  seed_board_set c i k v =
      let bs = or_else [] (boards c.doc) in
      changed_board c i bs (get_elem? bs i >>= λ b. toml.inline_put b k v)

  abbrev pub new_board : Text → toml.Item
  new_board name = toml.inline (
      (codes "name", name)
      ∷ (codes "description", [])
      ∷ (codes "min_read", codes "guest")
      ∷ (codes "min_write", codes "user")
      ∷ [])

  -- A `boards` that is no array panics.
  abbrev pub seed_board_add : ConfigDoc → Text → Option (ℕ × ConfigDoc)
  seed_board_add c name =
      let here = toml.item_get (section_or_new c.doc (codes "seed")) (codes "boards") in
      toml.array (or_else (toml.of_array []) here) >>= λ bs.
      put_in c.doc (codes "seed") (codes "boards") (toml.of_array (bs ++ new_board name ∷ []))
      >>= λ d. some (length bs, with_doc c d)

  abbrev pub seed_board_remove : ConfigDoc → ℕ → ConfigDoc
  seed_board_remove c i =
      let bs = or_else [] (boards c.doc) in
      if leb (length bs) i then c else put_boards c (remove_at i bs)

  -- The art of the screens
  abbrev pub screens : toml.Doc → Option (toml.Item)
  screens d = toml.get d (codes "art") >>= λ a. toml.item_get a (codes "screens")

  abbrev pub art_screen_get : ConfigDoc → Text → Option Text
  art_screen_get c k = screens c.doc >>= λ t. toml.item_get t k >>= λ i. toml.as_str i

  -- An empty table of screens goes.
  abbrev pub put_screens : ConfigDoc → toml.Item → ConfigDoc
  put_screens c t =
      if toml.is_empty t
      then (unset c (codes "art") (codes "screens")).1
      else put_back c (put_in c.doc (codes "art") (codes "screens") t)

  abbrev pub art_screen_removed : ConfigDoc → Option (Bool × toml.Item) → Bool × ConfigDoc
  art_screen_removed c none = (false, c)
  art_screen_removed c (some (had, t)) = (had, put_screens c t)

  abbrev pub art_screen_unset : ConfigDoc → Text → Bool × ConfigDoc
  art_screen_unset c k = art_screen_removed c (screens c.doc >>= λ t. toml.item_remove t k)

  abbrev pub art_screen_put : ConfigDoc → Text → Text → Option ConfigDoc
  art_screen_put c k file =
      let here = toml.item_get (section_or_new c.doc (codes "art")) (codes "screens") in
      toml.item_put (or_else (toml.of_table (toml.new_table)) here) k (toml.value (str_value file))
      >>= λ t. put_in c.doc (codes "art") (codes "screens") t >>= λ d. some (with_doc c d)

  abbrev pub art_screen_set : ConfigDoc → Text → Text → Option ConfigDoc
  art_screen_set c k file = elim (trim file) [
    | [] ↦ some (art_screen_unset c k).1
    | ch ∷ s ↦ art_screen_put c k (ch ∷ s)
  ]
