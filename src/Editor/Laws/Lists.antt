-- ===== src/Editor/Laws/Lists.antt =====
-- src/cfg/editor.rs: the handlers of the seeded boards, the art and the doors keep the invariant.
use bbs_rs.Prelude.{
  ℕ, ap, codes, ==_iff, ◌<◌, ◌≡◌, refl, true, not, ◌&&◌, inl, inr, Option-cases, arith, length,
  get_elem?_of_lt, ltb, ◌==◌,
}
use bbs_rs.Input.{KeyCode, char, enter, esc, up, down, left}
use bbs_rs.Editor.Schema.{
  Field, FieldKind, bool, int, enum_, str_list, str, path, door_fields, seed_board_fields,
}
use bbs_rs.Editor.Docs.{Docs, display_or_empty}
use bbs_rs.Editor.State.{
  Editor, on_art_screens, on_seed_boards, on_seed_board_fields, art_screen_keys, seed_board_field,
}
use bbs_rs.Editor.Seeding.{
  seed_up, seed_down, seed_key, seed_add, seed_added, seed_remove, begin_board_kind,
  begin_seed_board_edit, board_fields_key, board_fields_up, board_fields_down, choose_for_board,
  confirm_remove_board_key, open_seed,
}
use bbs_rs.Editor.Fields.{seed_board_index}
use bbs_rs.Editor.Art.{art_up, art_down, art_edit, art_unset, art_screens_key}
use bbs_rs.Editor.Laws.Rows.{same_doors}
use bbs_rs.Editor.Laws.Invariant.{
  DoorLaws, Panics, Handles, if-Handles, has_options, next_option_of_some,
  seed_board_field-has_options, Inv, Ok, if-Ok, if-P, below-lt,
}

-- The first row of a list of settings is there.
rows : (0 < length seed_board_fields) × (0 < length door_fields) × (0 < length art_screen_keys)
unfolding seed_board_fields door_fields art_screen_keys
rows = (omega arith, omega arith, omega arith)

module _ (docs : Docs) (laws : DoorLaws docs) (w : docs.World) (e : Editor docs)
    (h : Inv docs w e) where
  pub open_seed-Inv : Inv docs w (open_seed docs w e)
  open_seed-Inv = (h.0, λ q. cc q)

  seed_up-Inv : e.screen ≡ on_seed_boards → Inv docs w (seed_up docs e)
  seed_up-Inv s = (h.0, λ q. cc (s, q))

  seed_down-Inv : e.screen ≡ on_seed_boards → Inv docs w (seed_down docs e)
  seed_down-Inv s = (h.0, λ q. cc (s, q))

  seed_add-Handles :
      (c : ℕ)
      → (c == b'a') ≡ true
      → e.screen ≡ on_seed_boards
      → Handles docs (Panics docs (char c) e) (Inv docs w) (seed_add docs e)
  seed_add-Handles c a s = elim (Option-cases (docs.seed_board_add e.doc (codes "New board"))) [
    | inl panicked ↦ inl (inr (inr (ap char ((==_iff c b'a').0 a), s, panicked)), rw panicked refl)
    | inr (added, done) ↦ inr (
      seed_added docs e added,
      rw done refl,
      (
        (
          h.0.0,
          h.0.1,
          h.0.2,
          omega (arith, rows),
          rw (laws.of_seed_board_add e.doc _ added done) h.0.4,
        ),
        λ q. cc q,
      ),
    )
  ]

  seed_remove-Inv : e.screen ≡ on_seed_boards → Inv docs w (seed_remove docs e)
  seed_remove-Inv s =
      if-P docs (Inv docs w)
        (not e.seed_on_password && ltb 0 (length (docs.seed_board_names e.doc))) (h.0, λ q. cc q) h

  pub seed_key-Handles :
      e.screen ≡ on_seed_boards
      → (key : KeyCode) → Handles docs (Panics docs key e) (Inv docs w) (seed_key docs key w e)
  seed_key-Handles s up = inr (_, refl, seed_up-Inv s)
  seed_key-Handles s down = inr (_, refl, seed_down-Inv s)
  seed_key-Handles s enter = inr (
    _,
    refl,
    if-P docs (Inv docs w) e.seed_on_password (h.0, λ q. cc q)
        ((h.0.0, h.0.1, h.0.2, omega (arith, rows), h.0.4), λ q. cc q),
  )
  seed_key-Handles s esc = inr (_, refl, (h.0, λ q. cc q))
  seed_key-Handles s left = inr (_, refl, (h.0, λ q. cc q))
  seed_key-Handles s (char c) =
      let N = Panics docs (char c) e in
      if-Handles docs N (Inv docs w) (c == b'k') (λ _. inr (_, refl, seed_up-Inv s))
        (λ _.
          if-Handles docs N (Inv docs w) (c == b'j') (λ _. inr (_, refl, seed_down-Inv s))
            (λ _.
              if-Handles docs N (Inv docs w) (c == b'a') (λ a. seed_add-Handles c a s)
                (λ _. inr (
                  if-Ok docs (Inv docs w) (c == b'd') (_, refl, seed_remove-Inv s)
                    (if-Ok docs (Inv docs w) (c == b's') (_, refl, (h.0, λ _. refl))
                      (if-Ok docs (Inv docs w) (c == b'q') (_, refl, (h.0, λ q. cc q))
                        (e, refl, h)))))))
  seed_key-Handles s _ = inr (e, refl, h)

  begin_board_kind-Ok :
      e.screen ≡ on_seed_board_fields
      → (kind : FieldKind) (f : Field) → has_options kind ≡ true
      → Ok docs (Inv docs w) (begin_board_kind docs kind f e)
  begin_board_kind-Ok s (enum_ options) f q =
      let current = display_or_empty (docs.seed_board_get e.doc (seed_board_index docs e) f.key) in
      let (next, found) = next_option_of_some current options q in
      (
        choose_for_board docs f e next,
        rw found refl,
        (same_doors docs laws w e h _ (laws.of_seed_board_set e.doc _ _ _), λ q. cc (s, q)),
      )
  begin_board_kind-Ok s bool f q = (_, refl, (h.0, λ q. cc q))
  begin_board_kind-Ok s (int _ _) f q = (_, refl, (h.0, λ q. cc q))
  begin_board_kind-Ok s str f q = (_, refl, (h.0, λ q. cc q))
  begin_board_kind-Ok s path f q = (_, refl, (h.0, λ q. cc q))
  begin_board_kind-Ok s str_list f q = (_, refl, (h.0, λ q. cc q))

  begin_board_edit-Ok :
      e.screen ≡ on_seed_board_fields → Ok docs (Inv docs w) (begin_seed_board_edit docs e)
  begin_board_edit-Ok s = elim (Option-cases (seed_board_field docs e)) [
    | inl none_there ↦ rw none_there (e, refl, h)
    | inr (f, there) ↦
        rw there (begin_board_kind-Ok s f.kind f (seed_board_field-has_options docs e f there))
  ]

  board_fields_up-Inv : e.screen ≡ on_seed_board_fields → Inv docs w (board_fields_up docs e)
  board_fields_up-Inv s = ((h.0.0, h.0.1, h.0.2, omega (arith, h.0.3), h.0.4), λ q. cc (s, q))

  board_fields_down-Inv : e.screen ≡ on_seed_board_fields → Inv docs w (board_fields_down docs e)
  board_fields_down-Inv s = (
    (h.0.0, h.0.1, h.0.2, below-lt docs e.seed_field_sel (length seed_board_fields) h.0.3, h.0.4),
    λ q. cc (s, q),
  )

  pub board_fields_key-Ok :
      e.screen ≡ on_seed_board_fields
      → (key : KeyCode) → Ok docs (Inv docs w) (board_fields_key docs key w e)
  board_fields_key-Ok s up = (_, refl, board_fields_up-Inv s)
  board_fields_key-Ok s down = (_, refl, board_fields_down-Inv s)
  board_fields_key-Ok s enter = begin_board_edit-Ok s
  board_fields_key-Ok s esc = (_, refl, (h.0, λ q. cc q))
  board_fields_key-Ok s left = (_, refl, (h.0, λ q. cc q))
  board_fields_key-Ok s (char c) =
      if-Ok docs (Inv docs w) (c == b'k') (_, refl, board_fields_up-Inv s)
        (if-Ok docs (Inv docs w) (c == b'j') (_, refl, board_fields_down-Inv s)
          (if-Ok docs (Inv docs w) (c == b's') (_, refl, (h.0, λ _. refl))
            (if-Ok docs (Inv docs w) (c == b'q') (_, refl, (h.0, λ q. cc q)) ((e, refl, h)))))
  board_fields_key-Ok s _ = (e, refl, h)

  pub confirm_remove_board_key-Inv :
      (key : KeyCode) → Inv docs w (confirm_remove_board_key docs key e)
  confirm_remove_board_key-Inv (char c) =
      if-P docs (Inv docs w) (c == b'y')
        (same_doors docs laws w e h _ (laws.of_seed_board_remove e.doc _), λ q. cc q)
        (h.0, λ q. cc q)
  confirm_remove_board_key-Inv _ = (h.0, λ q. cc q)

  art_up-Inv : e.screen ≡ on_art_screens → Inv docs w (art_up docs e)
  art_up-Inv s = ((h.0.0, omega (arith, h.0.1), h.0.2, h.0.3, h.0.4), λ q. cc (s, q))

  art_down-Inv : e.screen ≡ on_art_screens → Inv docs w (art_down docs e)
  art_down-Inv s = (
    (h.0.0, below-lt docs e.art_sel (length art_screen_keys) h.0.1, h.0.2, h.0.3, h.0.4),
    λ q. cc (s, q),
  )

  art_edit-Ok : Ok docs (Inv docs w) (art_edit docs e)
  art_edit-Ok =
      let (row, there) = get_elem?_of_lt art_screen_keys e.art_sel h.0.1 in
      rw there (_, refl, (h.0, λ q. cc q))

  art_unset-Ok : e.screen ≡ on_art_screens → Ok docs (Inv docs w) (art_unset docs e)
  art_unset-Ok s =
      let (row, there) = get_elem?_of_lt art_screen_keys e.art_sel h.0.1 in
      rw there (
        _,
        refl,
        (same_doors docs laws w e h _ (laws.of_art_screen_unset e.doc row.0), λ q. cc (s, q)),
      )

  pub art_screens_key-Ok :
      e.screen ≡ on_art_screens
      → (key : KeyCode) → Ok docs (Inv docs w) (art_screens_key docs key w e)
  art_screens_key-Ok s up = (_, refl, art_up-Inv s)
  art_screens_key-Ok s down = (_, refl, art_down-Inv s)
  art_screens_key-Ok s enter = art_edit-Ok
  art_screens_key-Ok s esc = (_, refl, (h.0, λ q. cc q))
  art_screens_key-Ok s left = (_, refl, (h.0, λ q. cc q))
  art_screens_key-Ok s (char c) =
      if-Ok docs (Inv docs w) (c == b'k') (_, refl, art_up-Inv s)
        (if-Ok docs (Inv docs w) (c == b'j') (_, refl, art_down-Inv s)
          (if-Ok docs (Inv docs w) (c == b'u') (art_unset-Ok s) (
            if-Ok docs (Inv docs w) (c == b's') (_, refl, (h.0, λ _. refl))
              (if-Ok docs (Inv docs w) (c == b'q') (_, refl, (h.0, λ q. cc q)) ((e, refl, h))))))
  art_screens_key-Ok s _ = (e, refl, h)
