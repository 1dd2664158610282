-- ===== src/Editor/Document/Laws.antt =====
-- src/cfg/doc.rs: only adding and removing change the number of doors, and a door that is there is
-- moved to a place that is there.
use bbs_rs.Prelude.{
  ℕ, zero, suc, ◌-◌, ◌≡◌, ◌≢◌, ◌≤◌, ◌<◌, refl, sym, ap, ◌∙◌, inl, inr, Bool, true, false, List, [],
  ◌∷◌, Option, none, some, ◌>>=◌, map, length, get_elem?_of_lt, set, Text, codes, text_eq,
  text_eq→eq, eq→text_eq, leb, if◌then◌else◌, Bool-cases, Option-cases, arith,
}
use bbs_rs.Editor.Docs.{Docs}
use bbs_rs.Editor.Toml.{Toml, Disk}
use bbs_rs.Editor.Document.{
  ConfigDoc, with_doc, or_else, remove_at, swap, put_in, put_back, section_or_new, unset, boards,
  put_boards, changed_board, seed_board_remove, put_screens, art_screen_removed,
}
use bbs_rs.Editor.Document.Doors.{target, doors, put_doors, all_doors, config_doc}
use bbs_rs.Editor.Doors.{door_count}

-- What the model relies on in toml_edit: a key that is put is read back and no other changes, an
-- array of tables is read as it was put, and only what is no array of tables, before and after, has
-- keys.
pub record TomlLaws (toml : Toml) : Type 0 where
  pub get_put : (d : toml.Doc) (s : Text) (i : toml.Item) → toml.get (toml.put d s i) s ≡ some i
  pub get_put_other :
      (d : toml.Doc) (s t : Text) (i : toml.Item)
      → t ≢ s
      → toml.get (toml.put d s i) t ≡ toml.get d t
  pub tables_of_tables : (ts : List (toml.Table)) → toml.tables (toml.of_tables ts) ≡ some ts
  pub keyed_put :
      (i i' v : toml.Item) (k : Text)
      → toml.item_put i k v ≡ some i'
      → (toml.tables i ≡ none) × (toml.tables i' ≡ none)
  pub keyed_remove :
      (i i' : toml.Item) (k : Text) (had : Bool)
      → toml.item_remove i k ≡ some (had, i')
      → (toml.tables i ≡ none) × (toml.tables i' ≡ none)

pub length-map {ℓ κ} :
    {A : Type ℓ} {B : Type κ} (f : A → B) (xs : List A) → length (map f xs) ≡ length xs
length-map f [] = refl
length-map f (x ∷ xs) = ap suc (length-map f xs)

pub length-set {ℓ} : {A : Type ℓ} (xs : List A) (i : ℕ) (x : A) → length (set xs i x) ≡ length xs
length-set [] i x = refl
length-set (y ∷ xs) zero x = refl
length-set (y ∷ xs) (suc i) x = ap suc (length-set xs i x)

-- Two places that are there are swapped.
pub swap-some :
    {A : Type 0} (i j : ℕ) (xs : List A)
    → i < length xs
    → j < length xs
    → (ys : List A) × (swap i j xs ≡ some ys) × (length ys ≡ length xs)
swap-some i j xs hi hj =
    let (a, ea) = get_elem?_of_lt xs i hi in
    let (b, eb) = get_elem?_of_lt xs j hj in
    (set (set xs i b) j a, rw (ea, eb) refl, length-set (set xs i b) j a ∙ length-set xs i b)

-- A door that is there goes to a place that is there.
pub target-lt :
    (is_up : Bool) (i j n : ℕ) → i ≤ n - 1 → target is_up i n ≡ some j → (i < n) × (j < n)
target-lt true zero j n le e = cc
target-lt true (suc i) j n le e = let same : i ≡ j = cc e in (omega arith, omega arith)
target-lt false i j n le e = ground arith

module _ (toml : Toml) (laws : TomlLaws toml) where
  doors_at :
      (d : toml.Doc) (s : Text)
      → s ≡ codes "doors"
      → doors toml d ≡ (toml.get d s >>= λ i. toml.tables i)
  doors_at d s e = ap (λ k. toml.get d k >>= λ i. toml.tables i) (sym e)

  -- What is put at another key, or is no array of tables where none was, leaves the doors.
  doors-put :
      (d : toml.Doc) (s : Text) (t : toml.Item)
      → toml.tables t ≡ none
      → (s ≡ codes "doors" → doors toml d ≡ none)
      → doors toml (toml.put d s t) ≡ doors toml d
  doors-put d s t no_tables none_there = elim (Bool-cases (text_eq s (codes "doors"))) [
    | inl same ↦
        let e = text_eq→eq s (codes "doors") same in
        doors_at (toml.put d s t) s e
        ∙ ap (λ o. o >>= λ i. toml.tables i) (laws.get_put d s t)
        ∙ no_tables
        ∙ sym (none_there e)
    | inr other ↦
        ap (λ o. o >>= λ i. toml.tables i)
          (laws.get_put_other d s (codes "doors") t
            (λ e. cc (other, eq→text_eq s (codes "doors") (sym e))))
  ]

  doors-section :
      (d : toml.Doc) (s : Text)
      → toml.tables (section_or_new toml d s) ≡ none
      → s ≡ codes "doors"
      → doors toml d ≡ none
  doors-section d s h e = elim (Option-cases (toml.get d s)) [
    | inl missing ↦ doors_at d s e ∙ rw missing refl
    | inr (i, there) ↦ doors_at d s e ∙ rw there (rw there at h)
  ]

  pub doors-put_in :
      (d d' : toml.Doc) (s k : Text) (i : toml.Item)
      → put_in toml d s k i ≡ some d'
      → doors toml d' ≡ doors toml d
  doors-put_in d d' s k i e = elim (Option-cases (toml.item_put (section_or_new toml d s) k i)) [
    | inl panicked ↦ cc (rw panicked at e)
    | inr (t, done) ↦
        let (before, after) = laws.keyed_put (section_or_new toml d s) t i k done in
        let q : some (toml.put d s t) ≡ some d' = rw done at e in
        let same : toml.put d s t ≡ d' = cc q in
        ap (doors toml) (sym same) ∙ doors-put d s t after (doors-section d s before)
  ]

  -- The same doors, in what an operation leaves
  abbrev pub Kept : ConfigDoc toml → ConfigDoc toml → Type 0
  Kept c c' = doors toml c'.doc ≡ doors toml c.doc

  module _ (c : ConfigDoc toml) where
    pub stored-Kept :
        (o : Option (toml.Doc)) (c' : ConfigDoc toml)
        → ((d : toml.Doc) → o ≡ some d → doors toml d ≡ doors toml c.doc)
        → (o >>= λ d. some (with_doc toml c d)) ≡ some c'
        → Kept c c'
    stored-Kept none c' h e = cc e
    stored-Kept (some d) c' h e =
        let same : with_doc toml c d ≡ c' = cc e in
        ap (λ (x : ConfigDoc toml). doors toml x.doc) (sym same) ∙ h d refl

    pub put_back-Kept :
        (s k : Text) (i : toml.Item) → Kept c (put_back toml c (put_in toml c.doc s k i))
    put_back-Kept s k i = elim (Option-cases (put_in toml c.doc s k i)) [
      | inl panicked ↦ rw panicked refl
      | inr (d, done) ↦ rw done (doors-put_in c.doc d s k i done)
    ]

    if-Kept : (t : Bool) (a b : ConfigDoc toml) → Kept c a → Kept c b → Kept c (if t then a else b)
    if-Kept true a b h h' = h
    if-Kept false a b h h' = h'

    pub unset-Kept : (s k : Text) → Kept c (unset toml c s k).1
    unset-Kept s k = elim (Option-cases (toml.get c.doc s)) [
      | inl missing ↦ rw missing refl
      | inr (t, there) ↦ elim (Option-cases (toml.item_remove t k)) [
        | inl no_table ↦ rw (there, no_table) refl
        | inr ((had, t'), done) ↦
            let (before, after) = laws.keyed_remove t t' k had done in
            rw (there, done)
              (doors-put c.doc s t' after (λ e. doors_at c.doc s e ∙ rw there before))
      ]
    ]

    pub changed_board-Kept :
        (i : ℕ) (bs : List (toml.Item)) (o : Option (toml.Item))
        → Kept c (changed_board toml c i bs o)
    changed_board-Kept i bs none = refl
    changed_board-Kept i bs (some b) =
        put_back-Kept (codes "seed") (codes "boards") (toml.of_array (set bs i b))

    pub seed_board_remove-Kept : (i : ℕ) → Kept c (seed_board_remove toml c i)
    seed_board_remove-Kept i =
        let bs = or_else [] (boards toml c.doc) in
        if-Kept (leb (length bs) i) c (put_boards toml c (remove_at i bs)) refl
          (put_back-Kept (codes "seed") (codes "boards") (toml.of_array (remove_at i bs)))

    put_screens-Kept : (t : toml.Item) → Kept c (put_screens toml c t)
    put_screens-Kept t =
        if-Kept (toml.is_empty t) _ _ (unset-Kept (codes "art") (codes "screens"))
          (put_back-Kept (codes "art") (codes "screens") t)

    pub art_removed-Kept : (o : Option (Bool × toml.Item)) → Kept c (art_screen_removed toml c o).1
    art_removed-Kept none = refl
    art_removed-Kept (some (had, t)) = put_screens-Kept t

    -- Reading the doors that were put, and counting them
    pub all_doors-put : (ts : List (toml.Table)) → all_doors toml (put_doors toml c ts).doc ≡ ts
    all_doors-put ts =
        rw (laws.get_put c.doc (codes "doors") (toml.of_tables ts), laws.tables_of_tables ts) refl

  module _ (disk : Disk toml) where
    abbrev pub docs : Docs
    docs = config_doc toml disk

    pub count : (c : ConfigDoc toml) → door_count docs c ≡ length (all_doors toml c.doc)
    count c = length-map _ (all_doors toml c.doc)

    pub same_count : (c c' : ConfigDoc toml) → Kept c c' → door_count docs c' ≡ door_count docs c
    same_count c c' q = count c' ∙ ap (λ o. length (or_else [] o)) q ∙ sym (count c)
