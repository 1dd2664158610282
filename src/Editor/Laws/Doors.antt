-- ===== src/Editor/Laws/Doors.antt =====
-- src/cfg/editor.rs: the handlers of the doors keep the invariant.
use bbs_rs.Prelude.{
  ℕ, Bool, ◌-◌, ◌≤◌, ◌<◌, ◌≡◌, refl, true, false, Option, none, some, inl, inr, Option-cases, arith,
  length, ltb, ◌==◌,
}
use bbs_rs.Input.{KeyCode, char, enter, esc, up, down, left, right}
use bbs_rs.Editor.Schema.{Field, FieldKind, bool, int, enum_, str_list, str, path, door_fields}
use bbs_rs.Editor.Docs.{Docs, display_or_empty}
use bbs_rs.Editor.State.{
  Editor, on_doors, on_door_fields, on_confirm_remove_door, to_screen, door_field, below,
}
use bbs_rs.Editor.Doors.{
  doors_up, doors_down, door_count, door_fields_up, door_fields_down, moved, doors_key, with_door,
  begin_door_kind, begin_door_edit, choose_for_door, door_fields_key, confirm_remove_door_key,
  open_door, door_add, door_move, removed_door,
}
use bbs_rs.Editor.Laws.Rows.{same_doors}
use bbs_rs.Editor.Laws.Invariant.{
  DoorLaws, has_options, next_option_of_some, door_field-has_options, Inv, Ok, if-Ok, if-P,
  below-lt,
}

rows : 0 < length door_fields
unfolding door_fields
rows = omega arith

module _ (docs : Docs) (laws : DoorLaws docs) (w : docs.World) (e : Editor docs)
    (h : Inv docs w e) where
  with_door-Inv :
      (changed : Editor docs) → Inv docs w changed → Inv docs w (with_door docs e changed)
  with_door-Inv changed q = if-P docs (Inv docs w) (ltb 0 (door_count docs e.doc)) q h

  open_door-Inv : Inv docs w (open_door docs e)
  open_door-Inv = with_door-Inv _ ((h.0.0, h.0.1, omega (arith, rows), h.0.3, h.0.4), λ q. cc q)

  confirm-Inv : Inv docs w (with_door docs e (to_screen docs e on_confirm_remove_door))
  confirm-Inv = with_door-Inv (to_screen docs e on_confirm_remove_door) (h.0, λ q. cc q)

  door_add-Inv : Inv docs w (door_add docs e)
  door_add-Inv = ((h.0.0, h.0.1, omega (arith, rows), h.0.3, laws.of_door_add e.doc _ _), λ q. cc q)

  -- A door at the selection is moved, and the selection goes with it.
  door_move-Ok :
      e.screen ≡ on_doors → (is_up : Bool) → Ok docs (Inv docs w) (door_move docs is_up e)
  door_move-Ok s is_up =
      let (to, doc, done, same, lands) = laws.of_door_move e.doc e.door_sel is_up h.0.4 in
      (moved docs (to, doc) e, rw done refl, landed to doc same lands)
    where
      landed :
          (to : Option ℕ) (doc : docs.Doc)
          → door_count docs doc ≡ door_count docs e.doc
          → ((j : ℕ) → to ≡ some j → j ≤ door_count docs e.doc - 1)
          → Inv docs w (moved docs (to, doc) e)
      landed none doc same lands = (same_doors docs laws w e h doc same, λ q. cc (s, q))
      landed (some j) doc same lands =
          ((h.0.0, h.0.1, h.0.2, h.0.3, rw same (lands j refl)), λ q. cc (s, q))

  doors_up-Inv : e.screen ≡ on_doors → Inv docs w (doors_up docs e)
  doors_up-Inv s = ((h.0.0, h.0.1, h.0.2, h.0.3, omega (arith, h.0.4)), λ q. cc (s, q))

  below_last : (sel n : ℕ) → sel ≤ n - 1 → below docs sel n ≤ n - 1
  below_last sel n le = ground arith

  doors_down-Inv : e.screen ≡ on_doors → Inv docs w (doors_down docs e)
  doors_down-Inv s = (
    (h.0.0, h.0.1, h.0.2, h.0.3, below_last e.door_sel (door_count docs e.doc) h.0.4),
    λ q. cc (s, q),
  )

  pub doors_key-Ok :
      e.screen ≡ on_doors → (key : KeyCode) → Ok docs (Inv docs w) (doors_key docs key w e)
  doors_key-Ok s up = (_, refl, doors_up-Inv s)
  doors_key-Ok s down = (_, refl, doors_down-Inv s)
  doors_key-Ok s enter = (_, refl, open_door-Inv)
  doors_key-Ok s right = (_, refl, open_door-Inv)
  doors_key-Ok s esc = (_, refl, (h.0, λ q. cc q))
  doors_key-Ok s left = (_, refl, (h.0, λ q. cc q))
  doors_key-Ok s (char c) =
      if-Ok docs (Inv docs w) (c == b'k') (_, refl, doors_up-Inv s)
        (if-Ok docs (Inv docs w) (c == b'j') (_, refl, doors_down-Inv s)
          (if-Ok docs (Inv docs w) (c == b'a') (_, refl, door_add-Inv)
            (if-Ok docs (Inv docs w) (c == b'd') (_, refl, confirm-Inv)
              (if-Ok docs (Inv docs w) (c == b'K') (door_move-Ok s true) (
                if-Ok docs (Inv docs w) (c == b'J') (door_move-Ok s false) (
                  if-Ok docs (Inv docs w) (c == b's') (_, refl, (h.0, λ _. refl))
                    (if-Ok docs (Inv docs w) (c == b'q') (_, refl, (h.0, λ q. cc q))
                      (e, refl, h))))))))
  doors_key-Ok s _ = (e, refl, h)

  begin_door_kind-Ok :
      e.screen ≡ on_door_fields
      → (kind : FieldKind) (f : Field) → has_options kind ≡ true
      → Ok docs (Inv docs w) (begin_door_kind docs kind f e)
  begin_door_kind-Ok s (enum_ options) f q =
      let current = display_or_empty (docs.door_get e.doc e.door_sel f.key) in
      let (next, found) = next_option_of_some current options q in
      (
        choose_for_door docs f e next,
        rw found refl,
        (same_doors docs laws w e h _ (laws.of_door_set e.doc _ _ _), λ q. cc (s, q)),
      )
  begin_door_kind-Ok s bool f q = (_, refl, (h.0, λ q. cc q))
  begin_door_kind-Ok s (int _ _) f q = (_, refl, (h.0, λ q. cc q))
  begin_door_kind-Ok s str f q = (_, refl, (h.0, λ q. cc q))
  begin_door_kind-Ok s path f q = (_, refl, (h.0, λ q. cc q))
  begin_door_kind-Ok s str_list f q = (_, refl, (h.0, λ q. cc q))

  begin_door_edit-Ok : e.screen ≡ on_door_fields → Ok docs (Inv docs w) (begin_door_edit docs e)
  begin_door_edit-Ok s = elim (Option-cases (door_field docs e)) [
    | inl none_there ↦ rw none_there (e, refl, h)
    | inr (f, there) ↦
        rw there (begin_door_kind-Ok s f.kind f (door_field-has_options docs e f there))
  ]

  door_fields_up-Inv : e.screen ≡ on_door_fields → Inv docs w (door_fields_up docs e)
  door_fields_up-Inv s = ((h.0.0, h.0.1, omega (arith, h.0.2), h.0.3, h.0.4), λ q. cc (s, q))

  door_fields_down-Inv : e.screen ≡ on_door_fields → Inv docs w (door_fields_down docs e)
  door_fields_down-Inv s = (
    (h.0.0, h.0.1, below-lt docs e.door_field_sel (length door_fields) h.0.2, h.0.3, h.0.4),
    λ q. cc (s, q),
  )

  pub door_fields_key-Ok :
      e.screen ≡ on_door_fields
      → (key : KeyCode) → Ok docs (Inv docs w) (door_fields_key docs key w e)
  door_fields_key-Ok s up = (_, refl, door_fields_up-Inv s)
  door_fields_key-Ok s down = (_, refl, door_fields_down-Inv s)
  door_fields_key-Ok s enter = begin_door_edit-Ok s
  door_fields_key-Ok s esc = (_, refl, (h.0, λ q. cc q))
  door_fields_key-Ok s left = (_, refl, (h.0, λ q. cc q))
  door_fields_key-Ok s (char c) =
      if-Ok docs (Inv docs w) (c == b'k') (_, refl, door_fields_up-Inv s)
        (if-Ok docs (Inv docs w) (c == b'j') (_, refl, door_fields_down-Inv s)
          (if-Ok docs (Inv docs w) (c == b's') (_, refl, (h.0, λ _. refl))
            (if-Ok docs (Inv docs w) (c == b'q') (_, refl, (h.0, λ q. cc q)) ((e, refl, h)))))
  door_fields_key-Ok s _ = (e, refl, h)

  -- The selection is put back among the doors that are left.
  removed-Inv : Inv docs w (removed_door docs e)
  removed-Inv = ((h.0.0, h.0.1, h.0.2, h.0.3, omega arith), λ q. cc q)

  pub confirm_remove_door_key-Inv :
      (key : KeyCode) → Inv docs w (confirm_remove_door_key docs key e)
  confirm_remove_door_key-Inv (char c) =
      if-P docs (Inv docs w) (c == b'y') removed-Inv (h.0, λ q. cc q)
  confirm_remove_door_key-Inv _ = (h.0, λ q. cc q)
