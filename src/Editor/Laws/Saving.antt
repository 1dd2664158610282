-- ===== src/Editor/Laws/Saving.antt =====
-- src/cfg/editor.rs: a key on any screen, what it may write, and when it leaves.
use bbs_rs.Prelude.{
  ◌<◌, ◌≡◌, refl, sym, ap, ◌∙◌, Bool, true, false, Option, none, some, ◌⊎◌, inl, inr, ==_iff, arith,
  Text, length, ◌==◌, if◌then◌else◌,
}
use bbs_rs.Input.{KeyCode, char, enter, esc, up, down, right}
use bbs_rs.Editor.Schema.{SectionKind, fields_kind, doors_kind, art_screens_kind, seed_boards_kind}
use bbs_rs.Editor.Sections.{sections}
use bbs_rs.Editor.Docs.{Docs}
use bbs_rs.Editor.State.{
  Editor, Screen, on_sections, on_fields, on_edit, on_doors, on_art_screens, on_seed_boards,
  on_seed_board_fields, on_confirm_remove_seed_board, on_door_fields, on_confirm_remove_door,
  on_save, on_confirm_quit, Action, stay, quit, art_screen_keys, section, Handled, go_on, open_save,
}
use bbs_rs.Editor.Keys.{
  is_blocked, saved, try_save, not_saved, save_key, request_quit, confirm_quit_key, sections_up,
  sections_down, open_kind, open_section, sections_key, on_screen, on_key, still_editing,
}
use bbs_rs.Editor.Doors.{door_count}
use bbs_rs.Editor.Laws.Invariant.{DoorLaws, IsInRange, Panics, Handles, Inv, Ok, below-lt}
use bbs_rs.Editor.Laws.Rows.{same_doors, fields_key-Handles, edit_key-Handles}
use bbs_rs.Editor.Laws.Lists.{
  open_seed-Inv, seed_key-Handles, board_fields_key-Ok, confirm_remove_board_key-Inv,
  art_screens_key-Ok,
}
use bbs_rs.Editor.Laws.Doors.{doors_key-Ok, door_fields_key-Ok, confirm_remove_door_key-Inv}

-- A save that fails leaves the problems of the document as they were.
abbrev pub KeepsIssues : Docs → Type 0
KeepsIssues docs =
    (doc : docs.Doc) (w : docs.World) (message : Text)
    → (docs.save doc w).0 ≡ some message
    → docs.validate (docs.save doc w).1.0 (docs.save doc w).1.1 ≡ docs.validate doc w

art_rows : 0 < length art_screen_keys
unfolding art_screen_keys
art_rows = omega arith

module _ (docs : Docs) (laws : DoorLaws docs) (fails : KeepsIssues docs) where
  -- The files change only by a save, on the save screen, of a document without a blocking problem.
  abbrev pub Writes : docs.World → Editor docs → docs.World → Type 0
  Writes w e w' =
      (w' ≡ w)
      ⊎ ((e.screen ≡ on_save)
          × (is_blocked (docs.validate e.doc w) ≡ false)
          × (w' ≡ (docs.save e.doc w).1.1))

  -- The editor is left only without changes, or by `y` on the question.
  abbrev pub Leaves : KeyCode → Editor docs → Action → Type 0
  Leaves key e a =
      a ≡ quit → (docs.is_dirty e.doc ≡ false) ⊎ ((e.screen ≡ on_confirm_quit) × (key ≡ char b'y'))

  abbrev pub Returns : KeyCode → docs.World → Editor docs → Handled docs → Type 0
  Returns key w e o =
      (a : Action) × (e' : Editor docs) × (w' : docs.World) × (o ≡ some (a, (e', w')))
      × Inv docs w' e'
      × Writes w e w'
      × Leaves key e a

  abbrev pub Outcome : KeyCode → docs.World → Editor docs → Handled docs → Type 0
  Outcome key w e o = (Panics docs key e × (o ≡ none)) ⊎ Returns key w e o

  module _ (key : KeyCode) (w : docs.World) (e : Editor docs) where
    go_on-Returns :
        (o : Option (Editor docs)) → Ok docs (Inv docs w) o → Returns key w e (go_on docs w o)
    go_on-Returns o (e', q, h) = (stay, e', w, rw q refl, h, inl refl, λ q. cc q)

    some-Returns : (e' : Editor docs) → Inv docs w e' → Returns key w e (go_on docs w (some e'))
    some-Returns e' h = (stay, e', w, refl, h, inl refl, λ q. cc q)

    if-Returns :
        (t : Bool) {a b : Handled docs}
        → (t ≡ true → Returns key w e a)
        → (t ≡ false → Returns key w e b)
        → Returns key w e (if t then a else b)
    if-Returns true h h' = h refl
    if-Returns false h h' = h' refl

  module _ (key : KeyCode) (w : docs.World) (e : Editor docs) (h : Inv docs w e) where
    -- A save leaves the doors of the document.
    as_many :
        (doc : docs.Doc) (w' : docs.World)
        → (docs.save e.doc w).1 ≡ (doc, w')
        → IsInRange docs (record e { doc = doc })
    as_many doc w' q =
        same_doors docs laws w e h doc
          (sym (ap (λ r. door_count docs r.0) q) ∙ laws.of_save e.doc w)

    saved-Returns :
        e.screen ≡ on_save
        → is_blocked (docs.validate e.doc w) ≡ false
        → (r : Option Text × (docs.Doc × docs.World)) → docs.save e.doc w ≡ r
        → Returns key w e (saved docs r e)
    saved-Returns s clear (none, (doc, w')) q = (
      stay,
      _,
      w',
      refl,
      (as_many doc w' (ap (λ r. r.1) q), λ q. cc q),
      inr (s, clear, sym (ap (λ r. r.1.1) q)),
      λ q. cc q,
    )
    saved-Returns s clear (some message, (doc, w')) q =
        let same = fails e.doc w message (ap (λ r. r.0) q) in
        let fresh : e.issues ≡ docs.validate doc w' =
          h.1 s ∙ sym same ∙ ap (λ r. docs.validate r.1.0 r.1.1) q in
        (
          stay,
          _,
          w',
          refl,
          (as_many doc w' (ap (λ r. r.1) q), λ _. fresh),
          inr (s, clear, sym (ap (λ r. r.1.1) q)),
          λ q. cc q,
        )

    try_save-Returns : e.screen ≡ on_save → Returns key w e (try_save docs w e)
    try_save-Returns s =
        if-Returns key w e (is_blocked e.issues) (λ _. some-Returns key w e _ (h.0, h.1))
          (λ clear. saved-Returns s (rw (h.1 s) at clear) (docs.save e.doc w) refl)

    not_saved-Returns : Returns key w e (not_saved docs w e)
    not_saved-Returns = some-Returns key w e _ (h.0, λ q. cc q)

    request_quit-Returns : Returns key w e (request_quit docs w e)
    request_quit-Returns =
        if-Returns key w e (docs.is_dirty e.doc) (λ _. some-Returns key w e _ (h.0, λ q. cc q))
          (λ clean. (quit, e, w, refl, h, inl refl, λ _. inl clean))

    still_editing-Returns : Returns key w e (go_on docs w (some (still_editing docs e)))
    still_editing-Returns = some-Returns key w e _ (h.0, λ q. cc q)

    open_save-Returns : Returns key w e (go_on docs w (some (open_save docs w e)))
    open_save-Returns = some-Returns key w e _ (h.0, λ _. refl)

    sections_up-Returns :
        e.screen ≡ on_sections → Returns key w e (go_on docs w (some (sections_up docs e)))
    sections_up-Returns s =
        some-Returns key w e _ ((omega (arith, h.0.0), h.0.1, h.0.2, h.0.3, h.0.4), λ q. cc (s, q))

    sections_down-Returns :
        e.screen ≡ on_sections → Returns key w e (go_on docs w (some (sections_down docs e)))
    sections_down-Returns s = some-Returns key w e _ (
      (below-lt docs e.section_sel (length sections) h.0.0, h.0.1, h.0.2, h.0.3, h.0.4),
      λ q. cc (s, q),
    )

    open_kind-Inv : (kind : SectionKind) → Inv docs w (open_kind docs kind w e)
    open_kind-Inv fields_kind = (h.0, λ q. cc q)
    open_kind-Inv doors_kind = ((h.0.0, h.0.1, h.0.2, h.0.3, omega arith), λ q. cc q)
    open_kind-Inv art_screens_kind = ((h.0.0, art_rows, h.0.2, h.0.3, h.0.4), λ q. cc q)
    open_kind-Inv seed_boards_kind = open_seed-Inv docs laws w e h

    open_section-Returns : Returns key w e (go_on docs w (some (open_section docs w e)))
    open_section-Returns = some-Returns key w e _ (open_kind-Inv (section docs e).kind)

  save_key-Returns :
      (key : KeyCode) (w : docs.World) (e : Editor docs)
      → Inv docs w e
      → e.screen ≡ on_save
      → Returns key w e (save_key docs key w e)
  save_key-Returns enter w e h s = try_save-Returns enter w e h s
  save_key-Returns esc w e h s = not_saved-Returns esc w e h
  save_key-Returns (char c) w e h s =
      let key = char c in
      if-Returns key w e (c == b'y') (λ k. try_save-Returns key w e h s)
        (λ k2.
          if-Returns key w e (c == b'n') (λ k. not_saved-Returns key w e h)
            (λ k1. some-Returns key w e e h))
  save_key-Returns _ w e h s = some-Returns _ w e e h

  confirm_quit_key-Returns :
      (key : KeyCode) (w : docs.World) (e : Editor docs)
      → Inv docs w e
      → e.screen ≡ on_confirm_quit
      → Returns key w e (confirm_quit_key docs key w e)
  confirm_quit_key-Returns (char c) w e h s =
      let key = char c in
      if-Returns key w e (c == b'y')
        (λ k. (quit, e, w, refl, h, inl refl, λ _. inr (s, ap char ((==_iff c b'y').0 k))))
        (λ k2.
          if-Returns key w e (c == b's') (λ k. open_save-Returns key w e h)
            (λ k1. still_editing-Returns key w e h))
  confirm_quit_key-Returns _ w e h s = still_editing-Returns _ w e h

  sections_key-Returns :
      (key : KeyCode) (w : docs.World) (e : Editor docs)
      → Inv docs w e
      → e.screen ≡ on_sections
      → Returns key w e (sections_key docs key w e)
  sections_key-Returns up w e h s = sections_up-Returns up w e h s
  sections_key-Returns down w e h s = sections_down-Returns down w e h s
  sections_key-Returns enter w e h s = open_section-Returns enter w e h
  sections_key-Returns right w e h s = open_section-Returns right w e h
  sections_key-Returns esc w e h s = request_quit-Returns esc w e h
  sections_key-Returns (char c) w e h s =
      let key = char c in
      if-Returns key w e (c == b'k') (λ k. sections_up-Returns key w e h s)
        (λ k4.
          if-Returns key w e (c == b'j') (λ k. sections_down-Returns key w e h s)
            (λ k3.
              if-Returns key w e (c == b's') (λ k. open_save-Returns key w e h)
                (λ k2.
                  if-Returns key w e (c == b'q') (λ k. request_quit-Returns key w e h)
                    (λ k1. some-Returns key w e e h))))
  sections_key-Returns _ w e h s = some-Returns _ w e e h

  -- What a handler that may panic in the document does
  handled-Outcome :
      (key : KeyCode) (w : docs.World) (e : Editor docs) (o : Option (Editor docs))
      → Handles docs (Panics docs key e) (Inv docs w) o
      → Outcome key w e (go_on docs w o)
  handled-Outcome key w e o (inl (panics, q)) = inl (panics, rw q refl)
  handled-Outcome key w e o (inr h) = inr (go_on-Returns key w e o h)

  on_screen-Outcome :
      (screen : Screen) (key : KeyCode) (w : docs.World) (e : Editor docs)
      → Inv docs w e
      → e.screen ≡ screen
      → Outcome key w e (on_screen docs screen key w e)
  on_screen-Outcome on_sections key w e h s = inr (sections_key-Returns key w e h s)
  on_screen-Outcome on_fields key w e h s =
      handled-Outcome key w e _ (fields_key-Handles docs laws w e h s key)
  on_screen-Outcome on_edit key w e h s =
      handled-Outcome key w e _ (edit_key-Handles docs laws w e h s key)
  on_screen-Outcome on_save key w e h s = inr (save_key-Returns key w e h s)
  on_screen-Outcome on_confirm_quit key w e h s = inr (confirm_quit_key-Returns key w e h s)
  on_screen-Outcome on_doors key w e h s =
      inr (go_on-Returns key w e _ (doors_key-Ok docs laws w e h s key))
  on_screen-Outcome on_art_screens key w e h s =
      inr (go_on-Returns key w e _ (art_screens_key-Ok docs laws w e h s key))
  on_screen-Outcome on_seed_boards key w e h s =
      handled-Outcome key w e _ (seed_key-Handles docs laws w e h s key)
  on_screen-Outcome on_seed_board_fields key w e h s =
      inr (go_on-Returns key w e _ (board_fields_key-Ok docs laws w e h s key))
  on_screen-Outcome on_confirm_remove_seed_board key w e h s =
      inr (some-Returns key w e _ (confirm_remove_board_key-Inv docs laws w e h key))
  on_screen-Outcome on_door_fields key w e h s =
      inr (go_on-Returns key w e _ (door_fields_key-Ok docs laws w e h s key))
  on_screen-Outcome on_confirm_remove_door key w e h s =
      inr (some-Returns key w e _ (confirm_remove_door_key-Inv docs laws w e h key))

  -- The outcome of every key, on every document that keeps its number of doors
  pub on_key-Outcome :
      (key : KeyCode) (w : docs.World) (e : Editor docs)
      → Inv docs w e
      → Outcome key w e (on_key docs key w e)
  on_key-Outcome key w e h = on_screen-Outcome e.screen key w e h refl
