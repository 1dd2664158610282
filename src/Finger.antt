-- ===== src/Finger.antt =====
-- src/services/finger.rs: what the finger service answers to a request, from the profiles and the
-- live sessions. The sockets of `serve` are left out. `fmt_time`, which writes a date with crate
-- time, is a parameter.
pub mod Rows
pub mod Listing
pub mod Hiding
mod Tests
use bbs_rs.Prelude.{
  ℕ, zero, suc, ◌-◌, ◌/◌, ◌%◌, Bool, true, false, not, ◌&&◌, List, [], ◌∷◌, ◌++◌, Option, none,
  some, map, any, length, Text, codes, text_eq, trim, split_on, if◌then◌else◌, ◌==◌, ltb, find,
  decimal,
}
use bbs_rs.Error.{Result, ok, err}
use bbs_rs.Accounts.Admin.{select}
use bbs_rs.Presence.{Channels, Presence, OnlineUser, list}
use bbs_rs.Profiles.{ProfileRow, Profile, Db, get_profile_by_name}

abbrev crlf : Text
crlf = 13 ∷ 10 ∷ []

-- `trim_start_matches("/W")`
abbrev trim_switches : Text → Text
trim_switches [] = []
trim_switches (a ∷ []) = a ∷ []
trim_switches (a ∷ b ∷ s) =
    let rest = trim_switches s in if a == b'/' && b == b'W' then rest else a ∷ b ∷ s

abbrev first_part : List Text → Text
first_part [] = []
first_part (s ∷ _) = s

abbrev pub query : Text → Text
query request = trim (first_part (split_on b'@' (trim (trim_switches (trim request)))))

-- `{:<width$}`
abbrev spaces : ℕ → Text
spaces zero = []
spaces (suc n) = b' ' ∷ spaces n

abbrev padded : ℕ → Text → Text
padded width s = s ++ spaces (width - length s)

-- The span from `since` to `now`, in seconds, is none where the clock went back.
abbrev humanize_since : ℕ → ℕ → Text
humanize_since now since =
    let h = (now - since) / 3600 in
    let m = (now - since) % 3600 / 60 in
    if ltb 0 h
    then decimal h ++ codes "h " ++ decimal m ++ codes "m"
    else if ltb 0 m
    then decimal m ++ codes "m"
    else codes "just now"

abbrev pub no_such_user : Text → Text
no_such_user username = codes "finger: no such user \"" ++ username ++ codes "\"." ++ crlf

abbrev pub optout_names : Db → List Text
optout_names db = map (λ r. r.username) (select (λ r. r.finger_optout) db.users)

abbrev pub who_line : ℕ → OnlineUser → Text
who_line now u =
    codes "  " ++ padded 20 u.username ++ codes " on for " ++ humanize_since now u.since ++ crlf

-- The loop of `who_online`: the lines that it writes
abbrev pub who_lines : ℕ → List Text → List OnlineUser → List Text
who_lines now hidden [] = []
who_lines now hidden (u ∷ us) =
    let rest = who_lines now hidden us in
    if any (text_eq u.username) hidden then rest else who_line now u ∷ rest

abbrev pub joined : List Text → Text
joined [] = codes "  (nobody)" ++ crlf
joined (l ∷ []) = l
joined (l ∷ k ∷ ls) = l ++ joined (k ∷ ls)

abbrev pub who_online : ℕ → List OnlineUser → Db → Text
who_online now online db =
    codes "Who's online:" ++ crlf ++ joined (who_lines now (optout_names db) online)

-- Whether the account is a listed local one; `none` where there is no such row
abbrev pub listed : Option ProfileRow → Bool
listed none = false
listed (some r) = not r.finger_optout

abbrev pub visible : Text → Db → Bool
visible username db = listed (find (λ r. text_eq r.username username && not r.is_remote) db.users)

abbrev dash : Text → Text
dash [] = codes "—"
dash (c ∷ s) = c ∷ s

abbrev status : ℕ → Option OnlineUser → Text
status now none = codes "Status: offline" ++ crlf
status now (some u) =
    codes "Status: online (on for " ++ humanize_since now u.since ++ codes ")" ++ crlf

abbrev signed : Text → Text
signed [] = []
signed (c ∷ s) = crlf ++ codes "-- " ++ (c ∷ s) ++ crlf

module _ (fmt_time : ℕ → Text) where
  abbrev last_on : Option ℕ → Text
  last_on none = codes "never"
  last_on (some t) = fmt_time t

  -- The card that `user` writes
  abbrev pub card : ℕ → Option OnlineUser → Profile → Text
  card now online profile =
      codes "Login: "
      ++ padded 20 profile.username
      ++ codes " Name: "
      ++ dash profile.real_name
      ++ crlf
      ++ codes "Location: "
      ++ padded 17 (dash profile.location)
      ++ codes " Tagline: "
      ++ dash profile.tagline
      ++ crlf
      ++ codes "Member since: "
      ++ fmt_time profile.created_at
      ++ crlf
      ++ codes "Last on: "
      ++ last_on profile.last_login
      ++ crlf
      ++ codes "Posts: "
      ++ decimal profile.post_count
      ++ crlf
      ++ status now online
      ++ signed profile.signature

  -- `NotFound` is the one error of the model.
  abbrev pub card_or : ℕ → Option OnlineUser → Text → Result Profile → Text
  card_or now online username (err _) = no_such_user username
  card_or now online username (ok profile) = card now online profile

  abbrev pub user : ℕ → List OnlineUser → Text → Db → Text
  user now online username db =
      let here = find (λ u. text_eq u.username username) online in
      if visible username db
      then card_or now here username (get_profile_by_name username db)
      else no_such_user username

  abbrev pub answer : ℕ → List OnlineUser → Text → Db → Text
  answer now online [] db = who_online now online db
  answer now online (c ∷ s) db = user now online (c ∷ s) db

  unfoldable pub respond : (channels : Channels) → ℕ → Presence channels → Text → Db → Text
  respond channels now presence request db = answer now (list channels presence) (query request) db
