-- ===== src/Menu/Laws.antt =====
-- How `action` strings and hotkeys of src/app/state.rs name the targets of the menu.
use bbs_rs.Prelude.{
  ℕ, ◌≡◌, ◌≢◌, refl, sym, ap, ◌∙◌, ◌↔◌, inl, inr, [], ◌∷◌, ◌++◌, Option, some, find, find-In,
  Bool-cases, Text, codes, text_eq, text_eq→eq, trim, trim-append_of_trim, lower, ◌==◌,
}
use bbs_rs.Menu.{
  bulletins, boards, oneliners, polls, timeline, remote_boards, mail, mail_sysop, who, chat,
  profile, stats, search_, doors, files, keys, register, admin, help, quit, MenuItem, all_items,
  action, default_key, from_action, MenuAction, builtin, door, board, submenu, named_target,
  parse_with, prefixes, parse,
}

by_key : ℕ → Option MenuItem
by_key c = find (λ k. default_key k == c) all_items

by_key_back : (k : MenuItem) → by_key (default_key k) ≡ some k
unfolding by_key
by_key_back bulletins = refl
by_key_back boards = refl
by_key_back oneliners = refl
by_key_back polls = refl
by_key_back timeline = refl
by_key_back remote_boards = refl
by_key_back mail = refl
by_key_back mail_sysop = refl
by_key_back who = refl
by_key_back chat = refl
by_key_back profile = refl
by_key_back stats = refl
by_key_back search_ = refl
by_key_back doors = refl
by_key_back files = refl
by_key_back keys = refl
by_key_back register = refl
by_key_back admin = refl
by_key_back help = refl
by_key_back quit = refl

some_inj {ℓ} : {A : Type ℓ} {a b : A} → some a ≡ some b → a ≡ b
some_inj q = cc

-- No two built-in targets have one hotkey.
pub default_key_inj : (i j : MenuItem) → default_key i ≡ default_key j → i ≡ j
default_key_inj i j e = some_inj (sym (by_key_back i) ∙ ap by_key e ∙ by_key_back j)

found : (i : MenuItem) → find (λ k. text_eq (action k) (action i)) all_items ≡ some i
found bulletins = refl
found boards = refl
found oneliners = refl
found polls = refl
found timeline = refl
found remote_boards = refl
found mail = refl
found mail_sysop = refl
found who = refl
found chat = refl
found profile = refl
found stats = refl
found search_ = refl
found doors = refl
found files = refl
found keys = refl
found register = refl
found admin = refl
found help = refl
found quit = refl

-- An action string names a built-in target exactly when it is the target's identifier, letter
-- case and white space around it aside.
pub from_action_iff :
    (t : Text) (i : MenuItem) → (from_action t ≡ some i) ↔ (lower (trim t) ≡ action i)
unfolding from_action
from_action_iff t i = (named, names)
  where
    named : from_action t ≡ some i → lower (trim t) ≡ action i
    named e =
        let (_, same) = find-In (λ k. text_eq (action k) (lower (trim t))) all_items e in
        sym (text_eq→eq (action i) (lower (trim t)) same)

    names : lower (trim t) ≡ action i → from_action t ≡ some i
    names e = rw e (found i)

-- The string an operator writes for a target, and the names that can be written so.
abbrev pub spelled : MenuAction → Text
spelled (builtin i) = action i
spelled (door n) = codes "door:" ++ n
spelled (board n) = codes "board:" ++ n
spelled (submenu n) = codes "submenu:" ++ n

abbrev pub IsTarget : MenuAction → Type 0
IsTarget (builtin i) = Unit
IsTarget (door n) = (n ≢ []) × (trim n ≡ n)
IsTarget (board n) = (n ≢ []) × (trim n ≡ n)
IsTarget (submenu n) = (n ≢ []) × (trim n ≡ n)

parse_builtin : (i : MenuItem) → parse (action i) ≡ some (builtin i)
unfolding parse
parse_builtin bulletins = refl
parse_builtin boards = refl
parse_builtin oneliners = refl
parse_builtin polls = refl
parse_builtin timeline = refl
parse_builtin remote_boards = refl
parse_builtin mail = refl
parse_builtin mail_sysop = refl
parse_builtin who = refl
parse_builtin chat = refl
parse_builtin profile = refl
parse_builtin stats = refl
parse_builtin search_ = refl
parse_builtin doors = refl
parse_builtin files = refl
parse_builtin keys = refl
parse_builtin register = refl
parse_builtin admin = refl
parse_builtin help = refl
parse_builtin quit = refl

kept :
    (ctor : Text → MenuAction) (n : Text)
    → n ≢ []
    → trim n ≡ n
    → named_target ctor n ≡ some (ctor n)
kept ctor n here e = elim (Bool-cases (text_eq (trim n) [])) [
  | inl empty ↦ absurd (here (sym e ∙ text_eq→eq (trim n) [] empty))
  | inr full ↦ rw full (ap (λ m. some (ctor m)) e)
]

cons-nonempty : (c : ℕ) (s : Text) → c ∷ s ≢ []
cons-nonempty c s e = cc

-- The string for a target, with a name that is not empty and has no white space around it, is
-- read back as the target.
pub parse-spelled : (a : MenuAction) → IsTarget a → parse (spelled a) ≡ some a
unfolding parse
parse-spelled (builtin i) h = parse_builtin i
parse-spelled (door n) (here, e) =
    ap (parse_with prefixes) (trim-append_of_trim (codes "door:") n (cons-nonempty _ _) refl here e)
    ∙ kept door n here e
parse-spelled (board n) (here, e) =
    ap (parse_with prefixes)
      (trim-append_of_trim (codes "board:") n (cons-nonempty _ _) refl here e)
    ∙ kept board n here e
parse-spelled (submenu n) (here, e) =
    ap (parse_with prefixes)
      (trim-append_of_trim (codes "submenu:") n (cons-nonempty _ _) refl here e)
    ∙ kept submenu n here e
