-- ===== src/Presence/Laws/Roster.antt =====
-- The chat roster of src/services/presence.rs: what `sort` and `dedup` leave.
use bbs_rs.Prelude.{
  ℕ, ◌≡◌, ◌≢◌, refl, sym, ap, ◌∙◌, ◌⊎◌, ◌↔◌, inl, inr, true, false, List, [], ◌∷◌, Option, none,
  some, map, Text, text_eq, text_eq→eq, text_eq_refl, ◌==◌, In, Bool-cases, Option-cases, arith,
}
use mathlib.Core.Path.{subst}
use bbs_rs.Presence.{
  Channels, Session, Presence, text_leb, insert_sorted, sort, dedup, session, members, chat_roster,
}

pub leb_total : (s t : Text) → text_leb s t ≡ false → text_leb t s ≡ true
leb_total [] t e = cc
leb_total (a ∷ s) [] e = refl
leb_total (a ∷ s) (b ∷ t) e = elim (Bool-cases (a == b)) [
  | inl same ↦
      let turned : (b == a) ≡ true = ground arith in rw turned (leb_total s t (rw same at e))
  | inr other ↦ let turned : (b == a) ≡ false = ground arith in rw turned (ground arith)
]

abbrev HeadAbove : Text → List Text → Type 0
HeadAbove x [] = Unit
HeadAbove x (y ∷ _) = text_leb x y ≡ true

abbrev IsSorted : List Text → Type 0
IsSorted [] = Unit
IsSorted (x ∷ xs) = HeadAbove x xs × IsSorted xs

HeadAbove-insert_sorted :
    (y x : Text) (ys : List Text)
    → text_leb y x ≡ true
    → HeadAbove y ys
    → HeadAbove y (insert_sorted x ys)
HeadAbove-insert_sorted y x [] h k = h
HeadAbove-insert_sorted y x (z ∷ zs) h k = elim (Bool-cases (text_leb x z)) [
  | inl before ↦ rw before h
  | inr after ↦ rw after k
]

insert_sorted-IsSorted : (x : Text) (ys : List Text) → IsSorted ys → IsSorted (insert_sorted x ys)
insert_sorted-IsSorted x [] h = (tt, tt)
insert_sorted-IsSorted x (y ∷ ys) (k, h) = elim (Bool-cases (text_leb x y)) [
  | inl before ↦ rw before (before, (k, h))
  | inr after ↦
      rw after
        (HeadAbove-insert_sorted y x ys (leb_total x y after) k, insert_sorted-IsSorted x ys h)
]

sort-IsSorted : (xs : List Text) → IsSorted (sort xs)
sort-IsSorted [] = tt
sort-IsSorted (x ∷ xs) = insert_sorted-IsSorted x (sort xs) (sort-IsSorted xs)

-- In order, and no name next to itself.
abbrev pub Precedes : Text → List Text → Type 0
Precedes x [] = Unit
Precedes x (y ∷ _) = (text_leb x y ≡ true) × (x ≢ y)

abbrev pub IsStrict : List Text → Type 0
IsStrict [] = Unit
IsStrict (x ∷ xs) = Precedes x xs × IsStrict xs

dedup-head : (x : Text) (xs : List Text) → (rest : List Text) × (dedup (x ∷ xs) ≡ x ∷ rest)
dedup-head x [] = ([], refl)
dedup-head x (y ∷ ys) = elim (Bool-cases (text_eq x y)) [
  | inl same ↦
      let (rest, e) = dedup-head y ys in
      (rest, rw same (e ∙ ap (λ z. z ∷ rest) (sym (text_eq→eq x y same))))
  | inr other ↦ (dedup (y ∷ ys), rw other refl)
]

Precedes-dedup :
    (x y : Text) (ys : List Text) → text_leb x y ≡ true → x ≢ y → Precedes x (dedup (y ∷ ys))
Precedes-dedup x y ys h d = let (rest, e) = dedup-head y ys in rw e (h, d)

dedup-IsStrict : (xs : List Text) → IsSorted xs → IsStrict (dedup xs)
dedup-IsStrict [] h = tt
dedup-IsStrict (x ∷ []) h = (tt, tt)
dedup-IsStrict (x ∷ y ∷ ys) (k, h) =
    let rest = dedup-IsStrict (y ∷ ys) h in
    elim (Bool-cases (text_eq x y)) [
      | inl same ↦ rw same rest
      | inr other ↦ rw other (Precedes-dedup x y ys k (λ e. cc (other, eq_text e)), rest)
    ]
  where
    eq_text : x ≡ y → text_eq x y ≡ true
    eq_text e = rw e (text_eq_refl y)

In-insert_sorted : (n x : Text) (ys : List Text) → In n (insert_sorted x ys) ↔ ((n ≡ x) ⊎ In n ys)
In-insert_sorted n x [] = ((λ h. h), (λ h. h))
In-insert_sorted n x (y ∷ ys) = elim (Bool-cases (text_leb x y)) [
  | inl before ↦ rw before ((λ h. h), (λ h. h))
  | inr after ↦
      let (to, from) = In-insert_sorted n x ys in
      rw after (
        (λ h. elim h [
          | inl e ↦ inr (inl e)
          | inr i ↦ elim (to i) [ inl e ↦ inl e | inr j ↦ inr (inr j) ]
        ]),
        (λ h. elim h [
          | inl e ↦ inr (from (inl e))
          | inr i ↦ elim i [ inl e ↦ inl e | inr j ↦ inr (from (inr j)) ]
        ]),
      )
]

In-sort : (n : Text) (xs : List Text) → In n (sort xs) ↔ In n xs
In-sort n [] = ((λ h. h), (λ h. h))
In-sort n (x ∷ xs) =
    let (to, from) = In-insert_sorted n x (sort xs) in
    let (down, up) = In-sort n xs in
    (
      (λ h. elim (to h) [ inl e ↦ inl e | inr i ↦ inr (down i) ]),
      (λ h. elim h [ inl e ↦ from (inl e) | inr i ↦ from (inr (up i)) ]),
    )

In-dedup : (n : Text) (xs : List Text) → In n (dedup xs) ↔ In n xs
In-dedup n [] = ((λ h. h), (λ h. h))
In-dedup n (x ∷ []) = ((λ h. h), (λ h. h))
In-dedup n (x ∷ y ∷ ys) =
    let (to, from) = In-dedup n (y ∷ ys) in
    elim (Bool-cases (text_eq x y)) [
      | inl same ↦ rw same (
        (λ h. inr (to h)),
        (λ h. elim h [ inl e ↦ from (inl (e ∙ text_eq→eq x y same)) | inr i ↦ from i ]),
      )
      | inr other ↦ rw other (
        (λ h. elim h [ inl e ↦ inl e | inr i ↦ inr (to i) ]),
        (λ h. elim h [ inl e ↦ inl e | inr i ↦ inr (from i) ]),
      )
    ]

-- A live session of the chat room has the name.
abbrev pub IsPresent : (channels : Channels) → Presence channels → List ℕ → Text → Type 0
IsPresent channels p ids n =
    (id : ℕ) × (s : Session channels) × In id ids
    × (session channels p id ≡ some s)
    × (n ≡ s.username)

some_inj {ℓ} : {A : Type ℓ} {a b : A} → some a ≡ some b → a ≡ b
some_inj q = cc

In-members :
    (channels : Channels) (p : Presence channels) (ids : List ℕ) (n : Text)
    → In n (map (λ (s : Session channels). s.username) (members channels p ids))
      ↔ IsPresent channels p ids n
In-members channels p [] n = ((λ h. absurd h), (λ (id, s, i, e, q). i))
In-members channels p (k ∷ ids) n =
    let (to, from) = In-members channels p ids n in
    elim (Option-cases (session channels p k)) [
      | inl gone ↦ subst goal (skip gone) (
        (λ h. let (id, s, i, e, q) = to h in (id, s, inr i, e, q)),
        (λ (id, s, i, e, q). elim i [
          | inl same ↦
              let found : none ≡ some s = sym gone ∙ ap (session channels p) (sym same) ∙ e in
              cc found
          | inr j ↦ from (id, s, j, e, q)
        ]),
      )
      | inr (t, here) ↦ subst goal (take_in t here) (
        (λ h. elim h [
          | inl q ↦ (k, t, inl refl, here, q)
          | inr j ↦ let (id, s, i, e, q) = to j in (id, s, inr i, e, q)
        ]),
        (λ (id, s, i, e, q). elim i [
          | inl same ↦
              let found : some t ≡ some s = sym here ∙ ap (session channels p) (sym same) ∙ e in
              let alike : t ≡ s = some_inj found in
              inl (q ∙ sym (ap (λ (u : Session channels). u.username) alike))
          | inr j ↦ inr (from (id, s, j, e, q))
        ]),
      )
    ]
  where
    add : Option (Session channels) → List (Session channels)
    add none = members channels p ids
    add (some s) = s ∷ members channels p ids

    skip : session channels p k ≡ none → members channels p ids ≡ members channels p (k ∷ ids)
    skip gone = sym (ap add gone)

    take_in :
        (t : Session channels)
        → session channels p k ≡ some t
        → t ∷ members channels p ids ≡ members channels p (k ∷ ids)
    take_in t here = sym (ap add here)

    goal : List (Session channels) → Type 0
    goal l = In n (map (λ (s : Session channels). s.username) l) ↔ IsPresent channels p (k ∷ ids) n

-- The roster is in order with no name next to itself, and lists exactly the names of the live
-- sessions that are in the chat room, whatever ids of sessions that have left stand in it.
pub chat_roster-IsStrict :
    (channels : Channels) (p : Presence channels)
    → IsStrict (chat_roster channels p)
      × ((n : Text) → In n (chat_roster channels p) ↔ IsPresent channels p p.chat n)
unfolding chat_roster
chat_roster-IsStrict channels p = (
  dedup-IsStrict (sort names) (sort-IsSorted names),
  λ n.
      let (a, b) = In-dedup n (sort names) in
      let (c, d) = In-sort n names in
      let (e, f) = In-members channels p p.chat n in ((λ h. e (c (a h))), (λ h. b (d (f h)))),
)
  where
    names : List Text
    names = map (λ (s : Session channels). s.username) (members channels p p.chat)
