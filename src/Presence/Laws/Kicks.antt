-- ===== src/Presence/Laws/Kicks.antt =====
-- Who is kicked from the registry of src/services/presence.rs.
use bbs_rs.Prelude.{
  ◌≡◌, ◌⊎◌, refl, inl, inr, true, false, ◌||◌, List, [], ◌∷◌, Option, none, some, any, length, Text,
  text_eq, text_eq→eq, eq→text_eq, In, Bool-cases, arith,
}
use bbs_rs.Presence.{Channels, Session, Presence, keep, is_kicked, send_each, kick}
use bbs_rs.Presence.Laws.{kick-keep}

any-In : (s : Text) (xs : List Text) → any (text_eq s) xs ≡ true → In s xs
any-In s [] e = cc
any-In s (x ∷ xs) e = elim (Bool-cases (text_eq s x)) [
  | inl same ↦ inl (text_eq→eq s x same)
  | inr other ↦ inr (any-In s xs (ground arith))
]

In-any : (s : Text) (xs : List Text) → In s xs → any (text_eq s) xs ≡ true
In-any s [] i = absurd i
In-any s (x ∷ xs) (inl e) = let same = eq→text_eq s x e in ground arith
In-any s (x ∷ xs) (inr i) = let rest = In-any s xs i in ground arith

module _ (channels : Channels) (users ips : List Text) where
  -- A session of a banned user, or from a banned address
  abbrev pub IsBanned : Session channels → Type 0
  IsBanned s = In s.username users ⊎ ((ip : Text) × (s.ip ≡ some ip) × In ip ips)

  -- The sessions that are banned, in order and each as often as it is there
  pub data Victims : List (Session channels) → List (Session channels) → Type 0 where
    no_session : Victims [] []
    banned :
        (s : Session channels) (ss vs : List (Session channels))
        → IsBanned s
        → Victims ss vs
        → Victims (s ∷ ss) (s ∷ vs)
    spared :
        (s : Session channels) (ss vs : List (Session channels))
        → ¬ (IsBanned s)
        → Victims ss vs
        → Victims (s ∷ ss) vs

  -- `is_kicked`, on the name and the address
  by_name_or_ip :
      (name : Text) (o : Option Text)
      → (any (text_eq name) users || elim o [ none ↦ false | some ip ↦ any (text_eq ip) ips ])
        ≡ true
      → In name users ⊎ ((ip : Text) × (o ≡ some ip) × In ip ips)
  by_name_or_ip name none e = inl (any-In name users (ground arith))
  by_name_or_ip name (some ip) e = elim (Bool-cases (any (text_eq name) users)) [
    | inl named ↦ inl (any-In name users named)
    | inr unnamed ↦ inr (ip, refl, any-In ip ips (ground arith))
  ]

  is_kicked-IsBanned : (s : Session channels) → is_kicked channels users ips s ≡ true → IsBanned s
  is_kicked-IsBanned s e = by_name_or_ip s.username s.ip e

  IsBanned-is_kicked : (s : Session channels) → IsBanned s → is_kicked channels users ips s ≡ true
  IsBanned-is_kicked s (inl i) = rw (In-any s.username users i) refl
  IsBanned-is_kicked s (inr (ip, there, i)) =
      rw (there, In-any ip ips i)
        (elim (any (text_eq s.username) users) as (λ b. (b || true) ≡ true) [
          | true ↦ refl
          | false ↦ refl
        ])

  keep-Victims :
      (ss : List (Session channels)) → Victims ss (keep channels (is_kicked channels users ips) ss)
  keep-Victims [] = no_session
  keep-Victims (s ∷ ss) = elim (Bool-cases (is_kicked channels users ips s)) [
    | inl hit ↦ rw hit (banned s ss _ (is_kicked-IsBanned s hit) (keep-Victims ss))
    | inr miss ↦ rw miss (spared s ss _ (λ h. cc (miss, IsBanned-is_kicked s h)) (keep-Victims ss))
  ]

  -- A kick sends one quit to each session of a banned user or from a banned address, in the order of
  -- the registry, sends nothing to any other, and counts those.
  pub kick-Victims :
      (p : Presence channels) (w : channels.World)
      → (victims : List (Session channels)) × Victims p.inner victims
        × (kick channels users ips p w
            ≡ (length victims, (send_each channels (channels.quit) victims w).1))
  kick-Victims p w = (
    keep channels (is_kicked channels users ips) p.inner,
    keep-Victims p.inner,
    kick-keep channels users ips p w,
  )
