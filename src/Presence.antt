-- ===== src/Presence.antt =====
-- src/services/presence.rs: the registry of live sessions and the chat room. The two maps are
-- lists of entries, in the order they were put in; a hash map's own order is not promised, and
-- only the order of sends, and in `list` that of two sessions of one name, depends on it.
pub mod Laws
mod Tests
use bbs_rs.Prelude.{
  ℕ, suc, ◌+◌, Bool, true, false, not, ◌&&◌, ◌||◌, List, [], ◌∷◌, ◌++◌, Option, none, some, map,
  any, Text, text_eq, if◌then◌else◌, ◌==◌, ltb, leb, find, delete_where, is_some,
}

-- The channel of crate tokio behind a session's `tx`: sending an event in a world of channels
-- says whether the receiver is still there.
pub record Channels : Type 1 where
  pub Tx : Type 0
  pub Event : Type 0
  pub World : Type 0
  pub quit : Event
  pub send : Tx → Event → World → Bool × World

-- `Ord` of `String`: by code points, which is by UTF-8 bytes
abbrev pub text_leb : Text → Text → Bool
text_leb [] t = true
text_leb (a ∷ s) [] = false
text_leb (a ∷ s) (b ∷ t) = if a == b then text_leb s t else ltb a b

-- `sort` and `dedup`
abbrev pub insert_sorted : Text → List Text → List Text
insert_sorted x [] = x ∷ []
insert_sorted x (y ∷ ys) = if text_leb x y then x ∷ y ∷ ys else y ∷ insert_sorted x ys

abbrev pub sort : List Text → List Text
sort [] = []
sort (x ∷ xs) = insert_sorted x (sort xs)

abbrev pub dedup : List Text → List Text
dedup [] = []
dedup (x ∷ []) = x ∷ []
dedup (x ∷ y ∷ r) = let rest = dedup (y ∷ r) in if text_eq x y then rest else x ∷ rest

pub record OnlineUser : Type 0 where
  pub username : Text
  pub since : ℕ

-- `sort_by` on the names, which is stable
abbrev pub insert_online : OnlineUser → List OnlineUser → List OnlineUser
insert_online u [] = u ∷ []
insert_online u (v ∷ vs) =
    let rest = insert_online u vs in if text_leb u.username v.username then u ∷ v ∷ vs else v ∷ rest

abbrev pub sort_online : List OnlineUser → List OnlineUser
sort_online [] = []
sort_online (u ∷ us) = insert_online u (sort_online us)

module _ (channels : Channels) where
  pub record Session : Type 0 where
    pub id : ℕ
    pub username : Text
    pub ip : Option Text
    pub since : ℕ
    pub tx : channels.Tx

  pub record Presence : Type 0 where
    pub inner : List Session
    pub chat : List ℕ

  -- `join_at`: an entry with the same id is replaced
  unfoldable pub join_at : Session → Presence → Presence
  join_at s p = record p { inner = delete_where (λ t. t.id == s.id) p.inner ++ s ∷ [] }

  unfoldable pub leave : ℕ → Presence → Presence
  leave session_id p = record {
    inner = delete_where (λ s. s.id == session_id) p.inner;
    chat = delete_where (λ id. id == session_id) p.chat;
  }

  unfoldable pub chat_join : ℕ → Presence → Presence
  chat_join session_id p =
      if any (λ id. id == session_id) p.chat
      then p
      else record p { chat = p.chat ++ session_id ∷ [] }

  unfoldable pub chat_leave : ℕ → Presence → Presence
  chat_leave session_id p = record p { chat = delete_where (λ id. id == session_id) p.chat }

  abbrev pub session : Presence → ℕ → Option Session
  session p session_id = find (λ s. s.id == session_id) p.inner

  abbrev pub online_user : Session → OnlineUser
  online_user s = record { username = s.username; since = s.since }

  abbrev pub list : Presence → List OnlineUser
  list p = sort_online (map online_user p.inner)

  -- The loops that send: how many received the event, and the world after.
  abbrev pub send_each : channels.Event → List Session → channels.World → ℕ × channels.World
  send_each event [] w = (0, w)
  send_each event (s ∷ ss) w =
      let (received, w') = channels.send s.tx event w in
      let (delivered, w'') = send_each event ss w' in ((if received then 1 else 0) + delivered, w'')

  abbrev pub members : Presence → List ℕ → List Session
  members p [] = []
  members p (id ∷ ids) = elim (session p id) [ none ↦ members p ids | some s ↦ s ∷ members p ids ]

  unfoldable pub chat_send : channels.Event → Presence → channels.World → ℕ × channels.World
  chat_send event p w = send_each event (members p p.chat) w

  unfoldable pub chat_roster : Presence → List Text
  chat_roster p = dedup (sort (map (λ s. s.username) (members p p.chat)))

  abbrev pub keep : (Session → Bool) → List Session → List Session
  keep q [] = []
  keep q (s ∷ ss) = if q s then s ∷ keep q ss else keep q ss

  unfoldable pub send_to_user :
      Text → channels.Event → Presence → channels.World → ℕ × channels.World
  send_to_user username event p w =
      send_each event (keep (λ s. text_eq s.username username) p.inner) w

  abbrev pub deliver : channels.Event → channels.World → Option Session → Bool × channels.World
  deliver event w none = (false, w)
  deliver event w (some s) = channels.send s.tx event w

  unfoldable pub send_to : ℕ → channels.Event → Presence → channels.World → Bool × channels.World
  send_to session_id event p w = deliver event w (session p session_id)

  unfoldable pub broadcast : channels.Event → Presence → channels.World → ℕ × channels.World
  broadcast event p w = send_each event p.inner w

  abbrev pub is_kicked : List Text → List Text → Session → Bool
  is_kicked banned_users banned_ips s =
      any (text_eq s.username) banned_users
      || elim s.ip [ none ↦ false | some ip ↦ any (text_eq ip) banned_ips ]

  -- The loop of `kick`, which counts a session whether or not its receiver is there.
  abbrev pub kick_each : List Text → List Text → List Session → channels.World → ℕ × channels.World
  kick_each banned_users banned_ips [] w = (0, w)
  kick_each banned_users banned_ips (s ∷ ss) w =
      let here = channels.send s.tx (channels.quit) w in
      let (n, w₁) = kick_each banned_users banned_ips ss here.1 in
      let (m, w₂) = kick_each banned_users banned_ips ss w in
      if is_kicked banned_users banned_ips s then (suc n, w₁) else (m, w₂)

  unfoldable pub kick : List Text → List Text → Presence → channels.World → ℕ × channels.World
  kick banned_users banned_ips p w = kick_each banned_users banned_ips p.inner w
