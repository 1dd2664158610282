-- ===== src/Presence/Tests.antt =====
-- Runs of the registry with two sessions, on channels that keep what was sent.
use bbs_rs.Prelude.{
  ℕ, ◌≡◌, ◌≢◌, refl, ◌↔◌, true, false, List, [], ◌∷◌, none, some, any, In, length, arith, Text,
  codes, ◌==◌,
}
use bbs_rs.Presence.{
  Channels, Session, Presence, join_at, leave, session, send_to, send_each, kick, chat_roster,
}
use bbs_rs.Presence.Laws.{join_at-leave, HasUniqueIds}
use bbs_rs.Presence.Laws.Kicks.{Victims, kick-Victims}
use bbs_rs.Presence.Laws.Roster.{IsStrict, IsPresent, chat_roster-IsStrict}

-- Event 0 is quit, and a world is the list of what was sent.
abbrev post : Channels
post = record {
  Tx = ℕ;
  Event = ℕ;
  World = List (ℕ × ℕ);
  quit = 0;
  send = λ tx event w. (true, (tx, event) ∷ w);
}

abbrev seat : ℕ → Text → Session post
seat id username = record { id = id; username = username; ip = none; since = 0; tx = id }

abbrev lobby : Presence post
lobby = record { inner = seat 1 (codes "zoe") ∷ seat 2 (codes "ann") ∷ []; chat = 2 ∷ 1 ∷ 9 ∷ [] }

roster_run : chat_roster post lobby ≡ codes "ann" ∷ codes "zoe" ∷ []
unfolding chat_roster
roster_run = refl

lobby-HasUniqueIds : HasUniqueIds post lobby
lobby-HasUniqueIds i = (ground arith, ground arith)

join_at-leave_example :
    (session post (join_at post (seat 3 (codes "bob")) lobby) 3 ≡ some (seat 3 (codes "bob")))
    × (session post (leave post 3 lobby) 3 ≡ none)
    × (any (λ id. id == 3) (leave post 3 lobby).chat ≡ false)
    × (send_to post 3 7 (leave post 3 lobby) [] ≡ (false, []))
    × ((j : ℕ)
        → j ≢ 3
        → (session post (join_at post (seat 3 (codes "bob")) lobby) j ≡ session post lobby j)
          × (session post (leave post 3 lobby) j ≡ session post lobby j))
join_at-leave_example = join_at-leave post (seat 3 (codes "bob")) lobby 7 []

-- One session of a banned user, one from a banned address, and one that stays.
abbrev hall : Presence post
hall = record lobby {
  inner =
      seat 1 (codes "ann")
      ∷ seat 2 (codes "zoe")
      ∷ record (seat 3 (codes "bob")) { ip = some (codes "10.0.0.9") }
      ∷ [];
}

kicks_by_name_and_address :
    kick post (codes "ann" ∷ []) (codes "10.0.0.9" ∷ []) hall [] ≡ (2, (3, 0) ∷ (1, 0) ∷ [])
unfolding kick
kicks_by_name_and_address = refl

kick-Victims_example :
    (victims : List (Session post)) × Victims post
      (codes "ann" ∷ [])
      (codes "10.0.0.9" ∷ [])
      hall.inner
      victims
    × (kick post (codes "ann" ∷ []) (codes "10.0.0.9" ∷ []) hall []
        ≡ (length victims, (send_each post (post.quit) victims []).1))
kick-Victims_example = kick-Victims post (codes "ann" ∷ []) (codes "10.0.0.9" ∷ []) hall []

chat_roster-IsStrict_example :
    IsStrict (chat_roster post lobby)
    × ((n : Text) → In n (chat_roster post lobby) ↔ IsPresent post lobby lobby.chat n)
chat_roster-IsStrict_example = chat_roster-IsStrict post lobby
