-- ===== src/Editor/Laws/Leaving.antt =====
-- src/cfg/editor.rs: the editor can be left from every screen.
use bbs_rs.Prelude.{ℕ, suc, ◌≡◌, ◌≤◌, arith, refl, some, inl, inr, codes, Bool-cases}
use bbs_rs.Input.{KeyCode, char, esc}
use bbs_rs.Editor.Docs.{Docs}
use bbs_rs.Editor.State.{
  Editor, Screen, on_sections, on_fields, on_edit, on_doors, on_art_screens, on_seed_boards,
  on_seed_board_fields, on_confirm_remove_seed_board, on_door_fields, on_confirm_remove_door,
  on_save, on_confirm_quit, stay, quit, EditFrom, from_section, from_door, from_art_screen,
  from_seed_board, to_screen, with_status,
}
use bbs_rs.Editor.Fields.{origin_of, edit_origin}
use bbs_rs.Editor.Doors.{kept_door}
use bbs_rs.Editor.Seeding.{kept_board}
use bbs_rs.Editor.Keys.{on_key}

module _ (docs : Docs) where
  -- `n` more keys can leave the editor, with the files as they are.
  pub data Quits (w : docs.World) : ℕ → Editor docs → Type 0 where
    now :
        (key : KeyCode) (e : Editor docs) → on_key docs key w e ≡ some (quit, (e, w)) → Quits w 1 e
    later :
        (key : KeyCode) (n : ℕ) (e e' : Editor docs)
        → on_key docs key w e ≡ some (stay, (e', w))
        → Quits w n e'
        → Quits w (suc n) e

  abbrev Leavable : docs.World → ℕ → Screen → Type 0
  Leavable w n screen = (e : Editor docs) → e.screen ≡ screen → (k : ℕ) × (k ≤ n) × Quits w k e

  confirm-Leavable : (w : docs.World) → Leavable w 1 on_confirm_quit
  confirm-Leavable w e s = (1, omega arith, now (char b'y') e (rw s refl))

  sections-Leavable : (w : docs.World) → Leavable w 2 on_sections
  sections-Leavable w e s = elim (Bool-cases (docs.is_dirty e.doc)) [
    | inl dirty ↦
        let asked = to_screen docs e on_confirm_quit in
        let (k, le, quits) = confirm-Leavable w asked refl in
        (suc k, omega arith, later esc k e asked (rw (s, dirty) refl) quits)
    | inr clean ↦ (1, omega arith, now esc e (rw (s, clean) refl))
  ]

  -- A screen that `esc` leaves for one that can be left
  by_esc :
      (w : docs.World) (n : ℕ) (screen from : Screen)
      → Leavable w n screen
      → ((e : Editor docs)
          → e.screen ≡ from
          → (e' : Editor docs) × (on_key docs esc w e ≡ some (stay, (e', w)))
            × (e'.screen ≡ screen))
      → Leavable w (suc n) from
  by_esc w n screen from leavable step e s =
      let (e', done, s') = step e s in
      let (k, le, quits) = leavable e' s' in (suc k, omega arith, later esc k e e' done quits)

  fields-Leavable : (w : docs.World) → Leavable w 3 on_fields
  fields-Leavable w =
      by_esc w 2 on_sections on_fields (sections-Leavable w)
        (λ e s. (to_screen docs e on_sections, rw s refl, refl))

  doors-Leavable : (w : docs.World) → Leavable w 3 on_doors
  doors-Leavable w =
      by_esc w 2 on_sections on_doors (sections-Leavable w)
        (λ e s. (to_screen docs e on_sections, rw s refl, refl))

  art_screens-Leavable : (w : docs.World) → Leavable w 3 on_art_screens
  art_screens-Leavable w =
      by_esc w 2 on_sections on_art_screens (sections-Leavable w)
        (λ e s. (to_screen docs e on_sections, rw s refl, refl))

  seed_boards-Leavable : (w : docs.World) → Leavable w 3 on_seed_boards
  seed_boards-Leavable w =
      by_esc w 2 on_sections on_seed_boards (sections-Leavable w)
        (λ e s. (to_screen docs e on_sections, rw s refl, refl))

  save-Leavable : (w : docs.World) → Leavable w 3 on_save
  save-Leavable w = by_esc w 2 on_sections on_save (sections-Leavable w) (λ e s.
      (with_status docs (to_screen docs e on_sections) (codes "Not saved."), rw s refl, refl))

  door_fields-Leavable : (w : docs.World) → Leavable w 4 on_door_fields
  door_fields-Leavable w =
      by_esc w 3 on_doors on_door_fields (doors-Leavable w)
        (λ e s. (to_screen docs e on_doors, rw s refl, refl))

  board_fields-Leavable : (w : docs.World) → Leavable w 4 on_seed_board_fields
  board_fields-Leavable w =
      by_esc w 3 on_seed_boards on_seed_board_fields (seed_boards-Leavable w)
        (λ e s. (to_screen docs e on_seed_boards, rw s refl, refl))

  remove_door-Leavable : (w : docs.World) → Leavable w 4 on_confirm_remove_door
  remove_door-Leavable w =
      by_esc w 3 on_doors on_confirm_remove_door (doors-Leavable w)
        (λ e s. (kept_door docs e, rw s refl, refl))

  remove_board-Leavable : (w : docs.World) → Leavable w 4 on_confirm_remove_seed_board
  remove_board-Leavable w =
      by_esc w 3 on_seed_boards on_confirm_remove_seed_board (seed_boards-Leavable w)
        (λ e s. (kept_board docs e, rw s refl, refl))

  more :
      (w : docs.World) (m n : ℕ) (screen : Screen)
      → m ≤ n
      → Leavable w m screen
      → Leavable w n screen
  more w m n screen le leavable e s = let (k, h, quits) = leavable e s in (k, omega arith, quits)

  origin-Leavable : (w : docs.World) (from : EditFrom) → Leavable w 4 (origin_of docs from)
  origin-Leavable w from_section = more w 3 4 on_fields (omega arith) (fields-Leavable w)
  origin-Leavable w from_door = door_fields-Leavable w
  origin-Leavable w from_art_screen =
      more w 3 4 on_art_screens (omega arith) (art_screens-Leavable w)
  origin-Leavable w from_seed_board = board_fields-Leavable w

  edit-Leavable : (w : docs.World) → Leavable w 5 on_edit
  edit-Leavable w e s =
      let back = with_status docs (to_screen docs e (edit_origin docs e)) (codes "Cancelled.") in
      let (k, le, quits) = origin-Leavable w e.edit_from back refl in
      (suc k, omega arith, later esc k e back (rw s refl) quits)

  leavable : (w : docs.World) (screen : Screen) → Leavable w 5 screen
  leavable w on_sections = more w 2 5 _ (omega arith) (sections-Leavable w)
  leavable w on_fields = more w 3 5 _ (omega arith) (fields-Leavable w)
  leavable w on_edit = edit-Leavable w
  leavable w on_doors = more w 3 5 _ (omega arith) (doors-Leavable w)
  leavable w on_art_screens = more w 3 5 _ (omega arith) (art_screens-Leavable w)
  leavable w on_seed_boards = more w 3 5 _ (omega arith) (seed_boards-Leavable w)
  leavable w on_seed_board_fields = more w 4 5 _ (omega arith) (board_fields-Leavable w)
  leavable w on_confirm_remove_seed_board = more w 4 5 _ (omega arith) (remove_board-Leavable w)
  leavable w on_door_fields = more w 4 5 _ (omega arith) (door_fields-Leavable w)
  leavable w on_confirm_remove_door = more w 4 5 _ (omega arith) (remove_door-Leavable w)
  leavable w on_save = more w 3 5 _ (omega arith) (save-Leavable w)
  leavable w on_confirm_quit = more w 1 5 _ (omega arith) (confirm-Leavable w)

  -- From every state of the editor some five keys or fewer quit it, and the files stay as they are.
  pub on_key-Quits : (w : docs.World) (e : Editor docs) → (k : ℕ) × (k ≤ 5) × Quits w k e
  on_key-Quits w e = leavable w e.screen e refl
