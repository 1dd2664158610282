-- ===== src/Finger/Tests.antt =====
-- Requests to a small board: a listed member, one who opted out, and a remote account.
use bbs_rs.Prelude.{ℕ, ◌≡◌, refl, Bool, true, false, [], ◌∷◌, ◌++◌, none, Text, codes}
use bbs_rs.Presence.{Channels, Session, Presence}
use bbs_rs.Profiles.{ProfileRow, Db}
use bbs_rs.Finger.{no_such_user, optout_names, respond, crlf}
use bbs_rs.Finger.Listing.{without}
use bbs_rs.Finger.Rows.{redacted}
use bbs_rs.Finger.Hiding.{respond-redacted}

abbrev deaf : Channels
deaf = record { Tx = ℕ; Event = ℕ; World = ℕ; quit = 0; send = λ tx event w. (false, w) }

abbrev row : ℕ → Text → Bool → Bool → ProfileRow
row id username optout remote = record {
  user_id = id;
  username = username;
  role = codes "user";
  created_at = 5;
  real_name = codes "Al B";
  location = [];
  tagline = codes "hi";
  signature = [];
  finger_optout = optout;
  is_remote = remote;
}

abbrev board : Db
board = record {
  users =
      row 1 (codes "al") false false
      ∷ row 2 (codes "eve") true false
      ∷ row 3 (codes "bo@far.example") false true
      ∷ [];
  logins = record { id = 1; username = codes "al"; ip = none; success = true; created_at = 9 } ∷ [];
  messages = [];
}

abbrev seat : ℕ → Text → Session deaf
seat id username = record { id = id; username = username; ip = none; since = 100; tx = id }

abbrev lobby : Presence deaf
lobby = record { inner = seat 1 (codes "eve") ∷ seat 2 (codes "al") ∷ []; chat = [] }

abbrev date : ℕ → Text
date t = codes "day"

empty_request_lists_who_is_online :
    respond date deaf 3800 lobby [] board
    ≡ codes "Who's online:" ++ crlf ++ codes "  al                   on for 1h 1m" ++ crlf
unfolding respond
empty_request_lists_who_is_online = refl

host_and_switch_are_stripped :
    respond date deaf 100 lobby (codes " /W al@host") board
    ≡ codes "Login: al                   Name: Al B"
      ++ crlf
      ++ codes "Location: —                 Tagline: hi"
      ++ crlf
      ++ codes "Member since: day"
      ++ crlf
      ++ codes "Last on: day"
      ++ crlf
      ++ codes "Posts: 0"
      ++ crlf
      ++ codes "Status: online (on for just now)"
      ++ crlf
unfolding respond
host_and_switch_are_stripped = refl

opted_out_user_is_hidden :
    respond date deaf 100 lobby (codes "eve") board ≡ no_such_user (codes "eve")
unfolding respond
opted_out_user_is_hidden = refl

respond-redacted_example :
    respond date deaf 3800
      (without deaf (optout_names board) lobby)
      (codes "/W al")
      (redacted board)
    ≡ respond date deaf 3800 lobby (codes "/W al") board
respond-redacted_example =
    respond-redacted deaf date 3800 lobby (codes "/W al") board (refl, (refl, (refl, tt)))
