-- ===== src/Editor/Laws/Invariant.antt =====
-- src/cfg/editor.rs: the selections stay in range, choices have an option, and issues are fresh.
use native.Mathlib.Nat.{mod-lt, zero-lt-suc}
use bbs_rs.Prelude.{
  ℕ, zero, suc, ◌+◌, ◌-◌, ◌%◌, ◌<◌, ◌≤◌, ◌≡◌, ◌⊎◌, codes, none, refl, Bool, true, false, List, [],
  ◌∷◌, Option, some, inl, inr, Option-cases, arith, all, Text, length, get_elem?, get_elem?_of_lt,
  min, if◌then◌else◌,
}
use bbs_rs.Editor.Schema.{Field, FieldKind, enum_, door_fields, seed_board_fields}
use bbs_rs.Editor.Schema.Network.{bbs_section, network_section, accounts_section}
use bbs_rs.Editor.Schema.Features.{
  features_section, abuse_section, oneliners_section, seed_section, doors_section,
  art_screens_section,
}
use bbs_rs.Editor.Schema.Limits.{limits_section, files_section}
use bbs_rs.Editor.Schema.Looks.{theme_section, art_section, finger_section, metrics_section}
use bbs_rs.Editor.Schema.Web.{web_section, federation_section}
use bbs_rs.Editor.Sections.{sections}
use bbs_rs.Input.{KeyCode, char, enter}
use bbs_rs.Editor.Docs.{Docs, FieldValue}
use bbs_rs.Editor.Doors.{door_count}
use bbs_rs.Editor.State.{
  Editor, on_save, on_fields, on_edit, on_seed_boards, art_screen_keys, section, field, door_field,
  seed_board_field, next_option, position_or_first, below,
}

-- A choice has an option.
abbrev pub has_options : FieldKind → Bool
has_options (enum_ []) = false
has_options _ = true

abbrev all_chosen : List Field → Bool
all_chosen = all (λ f. has_options f.kind)

sections-chosen : all (λ s. all_chosen s.fields) sections ≡ true
unfolding sections bbs_section network_section accounts_section features_section abuse_section
    oneliners_section seed_section doors_section art_screens_section limits_section files_section
    theme_section art_section finger_section metrics_section web_section federation_section
sections-chosen = refl

door_fields-chosen : all_chosen door_fields ≡ true
unfolding door_fields
door_fields-chosen = refl

seed_board_fields-chosen : all_chosen seed_board_fields ≡ true
unfolding seed_board_fields
seed_board_fields-chosen = refl

all-get_elem? {ℓ} :
    {A : Type ℓ} (p : A → Bool) (xs : List A) (i : ℕ) {x : A}
    → all p xs ≡ true
    → get_elem? xs i ≡ some x
    → p x ≡ true
all-get_elem? p [] i h e = cc
all-get_elem? p (x ∷ xs) zero h e = ground (arith, h, e)
all-get_elem? p (x ∷ xs) (suc i) h e = all-get_elem? p xs i (ground (arith, h)) e

mod_lt : (a n : ℕ) → a % suc n < suc n
mod_lt a n = mod-lt a (zero-lt-suc n)

-- A choice that has an option has a next one.
pub next_option_of_some :
    (s : Text) (os : List Text)
    → has_options (enum_ os) ≡ true
    → (next : Text) × (next_option s os ≡ some next)
next_option_of_some s [] h = cc
next_option_of_some s (o ∷ os) h =
    get_elem?_of_lt (o ∷ os) ((position_or_first s (o ∷ os) + 1) % length (o ∷ os)) (mod_lt _ _)

-- What the editor relies on in doc.rs: only `door_add` and `door_remove` change the number of doors,
-- a door that is added is there, and one that is there is moved to a place that is there.
pub record DoorLaws (docs : Docs) : Type 0 where
  pub of_set :
      (doc doc' : docs.Doc) (s k : Text) (v : FieldValue)
      → docs.set doc s k v ≡ some doc'
      → door_count docs doc' ≡ door_count docs doc
  pub of_unset :
      (doc : docs.Doc) (s k : Text) → door_count docs (docs.unset doc s k).1 ≡ door_count docs doc
  pub of_seed_board_set :
      (doc : docs.Doc) (i : ℕ) (k v : Text)
      → door_count docs (docs.seed_board_set doc i k v) ≡ door_count docs doc
  pub of_seed_board_add :
      (doc : docs.Doc) (name : Text) (added : ℕ × docs.Doc)
      → docs.seed_board_add doc name ≡ some added
      → door_count docs added.1 ≡ door_count docs doc
  pub of_seed_board_remove :
      (doc : docs.Doc) (i : ℕ)
      → door_count docs (docs.seed_board_remove doc i) ≡ door_count docs doc
  pub of_art_screen_set :
      (doc doc' : docs.Doc) (k file : Text)
      → docs.art_screen_set doc k file ≡ some doc'
      → door_count docs doc' ≡ door_count docs doc
  pub of_art_screen_unset :
      (doc : docs.Doc) (k : Text)
      → door_count docs (docs.art_screen_unset doc k).1 ≡ door_count docs doc
  pub of_door_set :
      (doc : docs.Doc) (i : ℕ) (k : Text) (v : FieldValue)
      → door_count docs (docs.door_set doc i k v) ≡ door_count docs doc
  pub of_save :
      (doc : docs.Doc) (w : docs.World)
      → door_count docs (docs.save doc w).1.0 ≡ door_count docs doc
  pub of_door_add :
      (doc : docs.Doc) (name command : Text)
      → (docs.door_add doc name command).0 ≤ door_count docs (docs.door_add doc name command).1 - 1
  pub of_door_move :
      (doc : docs.Doc) (i : ℕ) (is_up : Bool)
      → i ≤ door_count docs doc - 1
      → (to : Option ℕ) × (doc' : docs.Doc) × (docs.door_move doc i is_up ≡ some (to, doc'))
        × (door_count docs doc' ≡ door_count docs doc)
        × ((j : ℕ) → to ≡ some j → j ≤ door_count docs doc - 1)

-- The settings that the screens show
module _ (docs : Docs) where
  section-chosen : (e : Editor docs) → all_chosen (section docs e).fields ≡ true
  section-chosen e =
      elim (Option-cases (get_elem? sections (min e.section_sel (length sections - 1)))) [
        | inl none_there ↦ rw none_there refl
        | inr (s, there) ↦
            rw there (all-get_elem? (λ s. all_chosen s.fields) sections _ sections-chosen there)
      ]

  pub field-has_options :
      (e : Editor docs) (f : Field) → field docs e ≡ some f → has_options f.kind ≡ true
  field-has_options e f = all-get_elem? (λ f. has_options f.kind) _ e.field_sel (section-chosen e)

  pub door_field-has_options :
      (e : Editor docs) (f : Field) → door_field docs e ≡ some f → has_options f.kind ≡ true
  door_field-has_options e f =
      all-get_elem? (λ f. has_options f.kind) door_fields e.door_field_sel door_fields-chosen

  pub seed_board_field-has_options :
      (e : Editor docs) (f : Field) → seed_board_field docs e ≡ some f → has_options f.kind ≡ true
  seed_board_field-has_options e f =
      all-get_elem? (λ f. has_options f.kind) seed_board_fields e.seed_field_sel
        seed_board_fields-chosen

  -- The selections are rows, that of the doors the first where there is no door, and on the save
  -- screen the issues are those that the document has now.
  abbrev pub IsInRange : Editor docs → Type 0
  IsInRange e =
      (e.section_sel < length sections)
      × (e.art_sel < length art_screen_keys)
      × (e.door_field_sel < length door_fields)
      × (e.seed_field_sel < length seed_board_fields)
      × (e.door_sel ≤ door_count docs e.doc - 1)

  abbrev pub IsFresh : docs.World → Editor docs → Type 0
  IsFresh w e = e.screen ≡ on_save → e.issues ≡ docs.validate e.doc w

  abbrev pub Inv : docs.World → Editor docs → Type 0
  Inv w e = IsInRange e × IsFresh w e

  -- The document takes no value for the setting at the selection, no art for the screen at the
  -- selection, or no further board.
  abbrev pub RefusesSetting : Editor docs → Type 0
  RefusesSetting e =
      (f : Field) × (v : FieldValue) × (field docs e ≡ some f)
      × (docs.set e.doc (section docs e).name f.key v ≡ none)

  abbrev pub RefusesArt : Editor docs → Type 0
  RefusesArt e =
      (row : Text × Text) × (file : Text) × (get_elem? art_screen_keys e.art_sel ≡ some row)
      × (docs.art_screen_set e.doc row.0 file ≡ none)

  abbrev pub RefusesBoard : Editor docs → Type 0
  RefusesBoard e = docs.seed_board_add e.doc (codes "New board") ≡ none

  -- Where a key panics: inside the document, that refuses what the key is about to write.
  abbrev pub Panics : KeyCode → Editor docs → Type 0
  Panics key e =
      ((key ≡ enter) × ((e.screen ≡ on_fields) ⊎ (e.screen ≡ on_edit)) × RefusesSetting e)
      ⊎ ((key ≡ enter) × (e.screen ≡ on_edit) × RefusesArt e)
      ⊎ ((key ≡ char b'a') × (e.screen ≡ on_seed_boards) × RefusesBoard e)

  -- A handler returns, and what it returns has the property.
  abbrev pub Ok : (Editor docs → Type 0) → Option (Editor docs) → Type 0
  Ok P o = (e : Editor docs) × (o ≡ some e) × P e

  pub if-Ok :
      (P : Editor docs → Type 0) (t : Bool) {a b : Option (Editor docs)}
      → Ok P a
      → Ok P b
      → Ok P (if t then a else b)
  if-Ok P true h h' = h
  if-Ok P false h h' = h'

  pub if-P :
      (P : Editor docs → Type 0) (t : Bool) {a b : Editor docs} → P a → P b → P (if t then a else b)
  if-P P true h h' = h
  if-P P false h h' = h'

  pub below-lt : (sel n : ℕ) → sel < n → below docs sel n < n
  below-lt sel n h = ground arith

  -- A handler panics for that reason, or returns what has the property.
  abbrev pub Handles : Type 0 → (Editor docs → Type 0) → Option (Editor docs) → Type 0
  Handles N P o = (N × (o ≡ none)) ⊎ Ok P o

  pub if-Handles :
      (N : Type 0) (P : Editor docs → Type 0) (t : Bool) {a b : Option (Editor docs)}
      → (t ≡ true → Handles N P a)
      → (t ≡ false → Handles N P b)
      → Handles N P (if t then a else b)
  if-Handles N P true h h' = h refl
  if-Handles N P false h h' = h' refl
