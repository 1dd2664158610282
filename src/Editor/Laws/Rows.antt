-- ===== src/Editor/Laws/Rows.antt =====
-- src/cfg/editor.rs: the handlers of the screens that only edit keep the invariant.
use bbs_rs.Prelude.{
  ◌≡◌, ◌⊎◌, Text, refl, true, Option, none, some, inl, inr, Option-cases, trim, get_elem?_of_lt,
  ◌==◌,
}
use bbs_rs.Input.{KeyCode, char, enter, backspace, esc, up, down, left}
use bbs_rs.Editor.Schema.{Field, FieldKind, bool, int, enum_, str_list, str, path}
use bbs_rs.Editor.Docs.{Docs, FieldValue, str_value, display, display_or_empty}
use bbs_rs.Editor.State.{
  Editor, on_fields, on_edit, on_save, EditFrom, from_section, from_door, from_art_screen,
  from_seed_board, art_screen_keys, effective, section, field,
}
use bbs_rs.Editor.Fields.{
  set_done, set_shown, field_from, updated, begin_kind, begin_field, fields_key, unset_field,
  edit_key, origin_of, commit_field, commit_parsed, stored, Parsed, accepted, refused, edit_field,
  parse_value,
}
use bbs_rs.Editor.Doors.{door_count}
use bbs_rs.Editor.Laws.Invariant.{
  has_options, next_option_of_some, field-has_options, DoorLaws, IsInRange, Panics, Handles, Inv,
  if-Ok,
}

module _ (docs : Docs) (laws : DoorLaws docs) (w : docs.World) (e : Editor docs)
    (h : Inv docs w e) where
  -- The same selections, in a document with as many doors
  pub same_doors :
      (doc : docs.Doc)
      → door_count docs doc ≡ door_count docs e.doc
      → IsInRange docs (record e { doc = doc })
  same_doors doc q = (h.0.0, h.0.1, h.0.2, h.0.3, rw q h.0.4)

  set_shown-Handles :
      e.screen ≡ on_fields
      → (f : Field) (v : FieldValue) (shown : Text) → field docs e ≡ some f
      → Handles docs
          (Panics docs enter e)
          (Inv docs w)
          (set_shown docs (section docs e).name f.key v shown e)
  set_shown-Handles s f v shown there =
      elim (Option-cases (docs.set e.doc (section docs e).name f.key v)) [
        | inl panicked ↦ inl (inl (refl, inl s, (f, v, there, panicked)), rw panicked refl)
        | inr (doc, done) ↦ inr (
          set_done docs f.key shown e doc,
          rw done refl,
          (same_doors doc (laws.of_set e.doc doc _ _ v done), λ q. cc (s, q)),
        )
      ]

  begin_kind-Handles :
      e.screen ≡ on_fields
      → (kind : FieldKind) (f : Field) → has_options kind ≡ true
      → field docs e ≡ some f
      → Handles docs (Panics docs enter e) (Inv docs w) (begin_kind docs kind (section docs e) f e)
  begin_kind-Handles s bool f q there = set_shown-Handles s f _ _ there
  begin_kind-Handles s (enum_ options) f q there =
      let (next, found) =
        next_option_of_some (display_or_empty (effective docs e.doc (section docs e).name f.key))
          options q in
      rw found (set_shown-Handles s f (str_value next) next there)
  begin_kind-Handles s (int _ _) f q there = inr (_, refl, (h.0, λ q. cc q))
  begin_kind-Handles s str f q there = inr (_, refl, (h.0, λ q. cc q))
  begin_kind-Handles s path f q there = inr (_, refl, (h.0, λ q. cc q))
  begin_kind-Handles s str_list f q there = inr (_, refl, (h.0, λ q. cc q))

  begin_field-Handles :
      e.screen ≡ on_fields
      → (o : Option Field) → field docs e ≡ o
      → Handles docs (Panics docs enter e) (Inv docs w) (begin_field docs o e)
  begin_field-Handles s none there = inr (e, refl, h)
  begin_field-Handles s (some f) there =
      begin_kind-Handles s f.kind f (field-has_options docs e f there) there

  unset_field-Inv : e.screen ≡ on_fields → (o : Option Field) → Inv docs w (unset_field docs o e)
  unset_field-Inv s none = h
  unset_field-Inv s (some f) = (same_doors _ (laws.of_unset e.doc _ _), λ q. cc (s, q))

  pub fields_key-Handles :
      e.screen ≡ on_fields
      → (key : KeyCode) → Handles docs (Panics docs key e) (Inv docs w) (fields_key docs key w e)
  fields_key-Handles s up = inr (_, refl, (h.0, λ q. cc (s, q)))
  fields_key-Handles s down = inr (_, refl, (h.0, λ q. cc (s, q)))
  fields_key-Handles s enter = begin_field-Handles s (field docs e) refl
  fields_key-Handles s esc = inr (_, refl, (h.0, λ q. cc q))
  fields_key-Handles s left = inr (_, refl, (h.0, λ q. cc q))
  fields_key-Handles s (char c) = inr (
      if-Ok docs (Inv docs w) (c == b'k') (_, refl, (h.0, λ q. cc (s, q)))
        (if-Ok docs (Inv docs w) (c == b'j') (_, refl, (h.0, λ q. cc (s, q)))
          (if-Ok docs (Inv docs w) (c == b'u') (_, refl, unset_field-Inv s (field docs e))
            (if-Ok docs (Inv docs w) (c == b's') (_, refl, (h.0, λ _. refl))
              (if-Ok docs (Inv docs w) (c == b'q') (_, refl, (h.0, λ q. cc q)) (e, refl, h))))))
  fields_key-Handles s _ = inr (e, refl, h)

  origin_of-off : (from : EditFrom) → ¬ (origin_of docs from ≡ on_save)
  origin_of-off from_section q = cc q
  origin_of-off from_door q = cc q
  origin_of-off from_art_screen q = cc q
  origin_of-off from_seed_board q = cc q

  -- A value is stored in a document with as many doors, or the document refuses it.
  stored-cases :
      e.screen ≡ on_edit
      → (from : EditFrom) (f : Field) (v : FieldValue) → field_from docs from e ≡ some f
      → (Panics docs enter e × (stored docs from f v e ≡ none))
        ⊎ ((doc : docs.Doc) × (stored docs from f v e ≡ some doc)
            × (door_count docs doc ≡ door_count docs e.doc))
  stored-cases s from_section f v there =
      elim (Option-cases (docs.set e.doc (section docs e).name f.key v)) [
        | inl panicked ↦ inl (inl (refl, inr s, (f, v, there, panicked)), panicked)
        | inr (doc, done) ↦ inr (doc, done, laws.of_set e.doc doc _ _ v done)
      ]
  stored-cases s from_door f v there = inr (_, refl, laws.of_door_set e.doc e.door_sel f.key v)
  stored-cases s from_seed_board f v there =
      inr (_, refl, laws.of_seed_board_set e.doc _ f.key (display v))
  stored-cases s from_art_screen f v there =
      let (row, row_there) = get_elem?_of_lt art_screen_keys e.art_sel h.0.1 in
      elim (Option-cases (docs.art_screen_set e.doc row.0 (display v))) [
        | inl panicked ↦
            inl (inr (inl (refl, s, (row, display v, row_there, panicked))), rw row_there panicked)
        | inr (doc, done) ↦
            inr (doc, rw row_there done, laws.of_art_screen_set e.doc doc row.0 (display v) done)
      ]

  commit_parsed-Handles :
      e.screen ≡ on_edit
      → (f : Field) (parsed : Parsed) → edit_field docs e ≡ some f
      → Handles docs (Panics docs enter e) (Inv docs w) (commit_parsed docs f parsed e)
  commit_parsed-Handles s f (refused message) there = inr (_, refl, (h.0, λ q. cc (s, q)))
  commit_parsed-Handles s f (accepted v) there = elim (stored-cases s e.edit_from f v there) [
    | inl (panics, panicked) ↦ inl (panics, rw panicked refl)
    | inr (doc, done, same) ↦ inr (
      updated docs f doc e,
      rw done refl,
      (same_doors doc same, λ q. absurd (origin_of-off e.edit_from q)),
    )
  ]

  commit_field-Handles :
      e.screen ≡ on_edit
      → (o : Option Field) → edit_field docs e ≡ o
      → Handles docs (Panics docs enter e) (Inv docs w) (commit_field docs o e)
  commit_field-Handles s none there = inr (e, refl, h)
  commit_field-Handles s (some f) there =
      commit_parsed-Handles s f (parse_value docs f.kind f.key (trim e.input)) there

  pub edit_key-Handles :
      e.screen ≡ on_edit
      → (key : KeyCode) → Handles docs (Panics docs key e) (Inv docs w) (edit_key docs key e)
  edit_key-Handles s esc = inr (_, refl, (h.0, λ q. absurd (origin_of-off e.edit_from q)))
  edit_key-Handles s enter = commit_field-Handles s (edit_field docs e) refl
  edit_key-Handles s backspace = inr (_, refl, (h.0, λ q. cc (s, q)))
  edit_key-Handles s (char c) = inr (_, refl, (h.0, λ q. cc (s, q)))
  edit_key-Handles s _ = inr (e, refl, h)
