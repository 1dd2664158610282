-- ===== src/Presence/Laws.antt =====
-- What the registry of src/services/presence.rs answers after its changes.
pub mod Roster
pub mod Kicks
use bbs_rs.Prelude.{
  ℕ, zero, suc, ◌+◌, ◌≤◌, ◌<◌, ◌≡◌, ◌≢◌, refl, sym, ap, ◌∙◌, ◌⊎◌, ◌↔◌, inl, inr, Bool, true, false,
  not, ◌&&◌, ◌||◌, List, [], ◌∷◌, ◌++◌, Option, none, some, map, any, Text, text_eq, if◌then◌else◌,
  ◌==◌, ==_iff, find, delete_where, count_where, count_where-append, count_where-delete_where,
  count_where-delete_where_apart, In, length, Bool-cases, arith,
}
use bbs_rs.Presence.{
  Channels, Session, Presence, join_at, leave, chat_join, chat_leave, session, deliver, send_each,
  send_to, keep, is_kicked, kick_each, kick,
}

find-delete_where_same :
    {A : Type 0} (p : A → Bool) (xs : List A) → find p (delete_where p xs) ≡ none
find-delete_where_same p [] = refl
find-delete_where_same p (x ∷ xs) = elim (Bool-cases (p x)) [
  | inl hit ↦ rw hit (find-delete_where_same p xs)
  | inr miss ↦ rw (miss, miss) (find-delete_where_same p xs)
]

find-delete_where_apart :
    {A : Type 0} (q p : A → Bool)
    → ((x : A) → p x ≡ true → q x ≡ false)
    → (xs : List A) → find q (delete_where p xs) ≡ find q xs
find-delete_where_apart q p apart [] = refl
find-delete_where_apart q p apart (x ∷ xs) = elim (Bool-cases (p x)) [
  | inl hit ↦ rw (hit, apart x hit) (find-delete_where_apart q p apart xs)
  | inr miss ↦ rw miss (ap (λ o. if q x then some x else o) (find-delete_where_apart q p apart xs))
]

find-append_other :
    {A : Type 0} (q : A → Bool) (xs : List A) (y : A)
    → q y ≡ false
    → find q (xs ++ y ∷ []) ≡ find q xs
find-append_other q [] y e = rw e refl
find-append_other q (x ∷ xs) y e = ap (λ o. if q x then some x else o) (find-append_other q xs y e)

find-append_last :
    {A : Type 0} (q : A → Bool) (xs : List A) (y : A)
    → find q xs ≡ none
    → q y ≡ true
    → find q (xs ++ y ∷ []) ≡ some y
find-append_last q [] y e h = rw h refl
find-append_last q (x ∷ xs) y e h = elim (Bool-cases (q x)) [
  | inl hit ↦ cc (rw hit at e)
  | inr miss ↦ rw miss (find-append_last q xs y (rw miss at e) h)
]

apart_ids : (i j : ℕ) → j ≢ i → (k : ℕ) → (k == i) ≡ true → (k == j) ≡ false
apart_ids i j d k h = ground arith

-- The registry is a map: after a session has joined its id leads to it, and after it has left
-- its id leads nowhere, is not in the chat room and nothing can be sent to it, while every
-- other id leads where it did.
pub join_at-leave :
    (channels : Channels) (s : Session channels) (p : Presence channels) (event : channels.Event)
    (w : channels.World)
    → (session channels (join_at channels s p) s.id ≡ some s)
      × (session channels (leave channels s.id p) s.id ≡ none)
      × (any (λ id. id == s.id) (leave channels s.id p).chat ≡ false)
      × (send_to channels s.id event (leave channels s.id p) w ≡ (false, w))
      × ((j : ℕ)
          → j ≢ s.id
          → (session channels (join_at channels s p) j ≡ session channels p j)
            × (session channels (leave channels s.id p) j ≡ session channels p j))
unfolding join_at leave send_to
join_at-leave channels s p event w = (
  find-append_last is_s (delete_where is_s p.inner) s gone ((==_iff s.id s.id).1 refl),
  gone,
  no_ghost p.chat,
  ap (deliver channels event w) gone,
  λ j d. (
    find-append_other (λ (t : Session channels). t.id == j) (delete_where is_s p.inner) s
          (apart_ids s.id j d s.id ((==_iff s.id s.id).1 refl))
        ∙ others j d,
    others j d,
  ),
)
  where
    is_s : Session channels → Bool
    is_s t = t.id == s.id

    gone : find is_s (delete_where is_s p.inner) ≡ none
    gone = find-delete_where_same is_s p.inner

    others :
        (j : ℕ)
        → j ≢ s.id
        → find (λ (t : Session channels). t.id == j) (delete_where is_s p.inner)
          ≡ find (λ (t : Session channels). t.id == j) p.inner
    others j d =
        find-delete_where_apart (λ (t : Session channels). t.id == j) is_s
          (λ t h. apart_ids s.id j d t.id h) p.inner

    no_ghost : (ids : List ℕ) → any (λ id. id == s.id) (delete_where (λ id. id == s.id) ids) ≡ false
    no_ghost [] = refl
    no_ghost (i ∷ ids) = elim (Bool-cases (i == s.id)) [
      | inl hit ↦ rw hit (no_ghost ids)
      | inr miss ↦ rw (miss, miss) (no_ghost ids)
    ]

-- No id stands twice in either map.
abbrev pub HasUniqueIds : (channels : Channels) → Presence channels → Type 0
HasUniqueIds channels p =
    (i : ℕ)
    → (count_where (λ (s : Session channels). s.id == i) p.inner ≤ 1)
      × (count_where (λ id. id == i) p.chat ≤ 1)

abbrev bit : Bool → ℕ
bit b = if b then 1 else 0

count_ids :
    (A : Type 0) (key_of : A → ℕ) (i j : ℕ) (xs : List A)
    → count_where (λ x. key_of x == i) xs ≤ 1
    → count_where (λ x. key_of x == i) (delete_where (λ x. key_of x == j) xs)
        + (if i == j then 1 else 0)
      ≤ 1
count_ids A key_of i j xs h = elim (Bool-cases (i == j)) [
  | inl same ↦
      let e : i ≡ j = (==_iff i j).0 same in
      let none_left = count_where-delete_where (λ x. key_of x == j) xs in
      rw (same, e, none_left) (omega arith)
  | inr other ↦
      let kept =
        count_where-delete_where_apart (λ x. key_of x == i) (λ x. key_of x == j)
          (λ x q. apart_ids i j (λ e. ground arith) (key_of x) q) xs in
      rw (other, kept) (omega arith)
]

missing_id :
    (i j : ℕ) (ids : List ℕ)
    → any (λ k. k == j) ids ≡ false
    → i ≡ j
    → count_where (λ k. k == i) ids ≡ 0
missing_id i j [] h e = refl
missing_id i j (k ∷ ids) h e = let rest = missing_id i j ids (ground arith) e in ground arith

-- No change of the registry or of the chat room puts an id in twice.
pub HasUniqueIds-kept :
    (channels : Channels) (s : Session channels) (id : ℕ) (p : Presence channels)
    → HasUniqueIds channels p
    → HasUniqueIds channels (join_at channels s p)
      × HasUniqueIds channels (leave channels id p)
      × HasUniqueIds channels (chat_join channels id p)
      × HasUniqueIds channels (chat_leave channels id p)
unfolding join_at leave chat_join chat_leave
HasUniqueIds-kept channels s id p h = (
  (λ i. (
    rw
        (count_where-append (λ (t : Session channels). t.id == i)
          (delete_where (λ (t : Session channels). t.id == s.id) p.inner) (s ∷ []))
        (omega (arith, sessions i s.id, flip i s.id)),
    (h i).1,
  )),
  (λ i. (omega (arith, sessions i id), omega (arith, room i id))),
  joins,
  λ i. ((h i).0, omega (arith, room i id)),
)
  where
    flip : (i j : ℕ) → bit (j == i) ≡ bit (i == j)
    flip i j = ground arith

    sessions :
        (i j : ℕ)
        → count_where
              (λ (t : Session channels). t.id == i)
              (delete_where (λ (t : Session channels). t.id == j) p.inner)
            + (if i == j then 1 else 0)
          ≤ 1
    sessions i j = count_ids (Session channels) (λ t. t.id) i j p.inner (h i).0

    room :
        (i j : ℕ)
        → count_where (λ k. k == i) (delete_where (λ k. k == j) p.chat) + (if i == j then 1 else 0)
          ≤ 1
    room i j = count_ids ℕ (λ k. k) i j p.chat (h i).1

    joins : HasUniqueIds channels (chat_join channels id p)
    joins i = elim (Bool-cases (any (λ k. k == id) p.chat)) [
      | inl there ↦ rw there (h i)
      | inr fresh ↦
          rw (fresh, count_where-append (λ k. k == i) p.chat (id ∷ [])) ((h i).0, once fresh)
    ]
      where
        once :
            any (λ k. k == id) p.chat ≡ false
            → count_where (λ k. k == i) p.chat + count_where (λ k. k == i) (id ∷ []) ≤ 1
        once fresh = elim (Bool-cases (id == i)) [
          | inl same ↦
              let zero_ = missing_id i id p.chat fresh (sym ((==_iff id i).0 same)) in
              rw (zero_, same) (omega arith)
          | inr other ↦ let few = (h i).1 in rw other (omega arith)
        ]

-- The loop of a kick is a loop of sends over the sessions that its test picks.
pub kick-keep :
    (channels : Channels) (users ips : List Text) (p : Presence channels) (w : channels.World)
    → let victims = keep channels (is_kicked channels users ips) p.inner in
      kick channels users ips p w
      ≡ (length victims, (send_each channels (channels.quit) victims w).1)
unfolding kick
kick-keep channels users ips p w = each p.inner w
  where
    each :
        (ss : List (Session channels)) (v : channels.World)
        → kick_each channels users ips ss v ≡ (
          length (keep channels (is_kicked channels users ips) ss),
          (send_each channels
              (channels.quit)
              (keep channels (is_kicked channels users ips) ss)
              v).1,
        )
    each [] v = refl
    each (s ∷ ss) v =
        let go_on = each ss (channels.send s.tx (channels.quit) v).1 in
        let pass = each ss v in
        elim (Bool-cases (is_kicked channels users ips s)) [
          | inl hit ↦ rw (hit, go_on) refl
          | inr miss ↦ rw (miss, pass) refl
        ]
