-- ===== src/Menu.antt =====
-- src/app/state.rs: the targets of the main menu and the `action` strings that name them.
pub mod Laws
mod Tests
use bbs_rs.Prelude.{
  ℕ, ◌≡◌, Bool, true, false, not, ◌&&◌, ◌||◌, List, [], ◌∷◌, ◌++◌, Option, none, some, map, find,
  Text, codes, text_eq, trim, lower, lower_char, is_whitespace, is_alphanumeric, if◌then◌else◌,
  ◌==◌,
}

pub data MenuItem : Type 0 where
  bulletins boards oneliners polls timeline remote_boards mail mail_sysop who chat : MenuItem
  profile stats search_ doors files keys register admin help quit : MenuItem

abbrev pub all_items : List MenuItem
all_items =
    bulletins ∷ boards ∷ oneliners ∷ polls ∷ timeline ∷ remote_boards ∷ mail ∷ mail_sysop ∷ who
    ∷ chat ∷ profile ∷ stats ∷ search_ ∷ doors ∷ files ∷ keys ∷ register ∷ admin ∷ help ∷ quit ∷ []

abbrev pub label : MenuItem → Text
label bulletins = codes "Bulletins"
label boards = codes "Message Boards"
label oneliners = codes "Oneliners"
label polls = codes "Polls"
label timeline = codes "Timeline"
label remote_boards = codes "Remote Boards"
label mail = codes "Private Mail"
label mail_sysop = codes "Mail Sysop"
label who = codes "Who's Online"
label chat = codes "Chat"
label profile = codes "My Profile"
label stats = codes "Stats"
label search_ = codes "Search Messages"
label doors = codes "Door Games"
label files = codes "File Areas"
label keys = codes "SSH Keys"
label register = codes "Register New Account"
label admin = codes "Admin"
label help = codes "Help"
label quit = codes "Quit"

abbrev pub action : MenuItem → Text
action bulletins = codes "bulletins"
action boards = codes "boards"
action oneliners = codes "oneliners"
action polls = codes "polls"
action timeline = codes "timeline"
action remote_boards = codes "remote_boards"
action mail = codes "mail"
action mail_sysop = codes "mail_sysop"
action who = codes "who"
action chat = codes "chat"
action profile = codes "profile"
action stats = codes "stats"
action search_ = codes "search"
action doors = codes "doors"
action files = codes "files"
action keys = codes "keys"
action register = codes "register"
action admin = codes "admin"
action help = codes "help"
action quit = codes "quit"

abbrev pub default_key : MenuItem → ℕ
default_key bulletins = b'n'
default_key boards = b'b'
default_key oneliners = b'o'
default_key polls = b'v'
default_key timeline = b't'
default_key remote_boards = b'r'
default_key mail = b'm'
default_key mail_sysop = b'e'
default_key who = b'w'
default_key chat = b'c'
default_key profile = b'p'
default_key stats = b's'
default_key search_ = b'/'
default_key doors = b'd'
default_key files = b'f'
default_key keys = b'k'
default_key register = b'g'
default_key admin = b'a'
default_key help = b'h'
default_key quit = b'q'

unfoldable pub from_action : Text → Option MenuItem
from_action t = let wanted = lower (trim t) in find (λ i. text_eq (action i) wanted) all_items

pub data MenuAction : Type 0 where
  builtin : MenuItem → MenuAction
  door board submenu : Text → MenuAction

-- `str::strip_prefix`
abbrev pub strip_prefix : Text → Text → Option Text
strip_prefix [] s = some s
strip_prefix (c ∷ p) [] = none
strip_prefix (c ∷ p) (d ∷ s) = if c == d then strip_prefix p s else none

abbrev pub named_target : (Text → MenuAction) → Text → Option MenuAction
named_target ctor rest = let name = trim rest in if text_eq name [] then none else some (ctor name)

-- The loop over the prefixes, and what follows it.
abbrev pub parse_with : List (Text × (Text → MenuAction)) → Text → Option MenuAction
parse_with [] t = elim (from_action t) [ none ↦ none | some i ↦ some (builtin i) ]
parse_with ((prefix, ctor) ∷ rest) t = elim (strip_prefix prefix t) [
  | some name ↦ named_target ctor name
  | none ↦ parse_with rest t
]

abbrev pub prefixes : List (Text × (Text → MenuAction))
prefixes = (codes "door:", door) ∷ (codes "board:", board) ∷ (codes "submenu:", submenu) ∷ []

unfoldable pub parse : Text → Option MenuAction
unfolding from_action
parse t = parse_with prefixes (trim t)
