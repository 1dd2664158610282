-- ===== src/Finger/Rows.antt =====
-- Searches by name in a table of profiles whose names are unique, and in that table without its
-- hidden rows.
use bbs_rs.Prelude.{
  ◌≡◌, refl, ◌∙◌, inl, inr, Bool, true, false, not, ◌&&◌, ◌||◌, List, [], ◌∷◌, Option, none, some,
  map, any, all, Text, text_eq, text_eq→eq, if◌then◌else◌, find, delete_where, Bool-cases, arith,
}
use bbs_rs.Accounts.Admin.{select}
use bbs_rs.Profiles.{ProfileRow, Db}

-- `UNIQUE` on the names
abbrev pub HasUniqueNames : List ProfileRow → Type 0
HasUniqueNames [] = Unit
HasUniqueNames (r ∷ rs) =
    (all (λ s. not (text_eq s.username r.username)) rs ≡ true) × HasUniqueNames rs

abbrev pub is_hidden : ProfileRow → Bool
is_hidden r = r.is_remote || r.finger_optout

-- The tables without the hidden rows
abbrev pub redacted : Db → Db
redacted db = record db { users = delete_where is_hidden db.users }

abbrev pub filtered : (ProfileRow → Bool) → Option ProfileRow → Option ProfileRow
filtered q none = none
filtered q (some r) = if q r then some r else none

pub find-delete_where :
    {A : Type 0} (p h : A → Bool) (xs : List A)
    → find p (delete_where h xs) ≡ find (λ x. p x && not (h x)) xs
find-delete_where p h [] = refl
find-delete_where p h (x ∷ xs) =
    let rest = find-delete_where p h xs in
    elim (Bool-cases (h x)) [
      | inl hidden ↦ elim (Bool-cases (p x)) [
        | inl hit ↦ rw (hidden, hit) rest
        | inr miss ↦ rw (hidden, miss) rest
      ]
      | inr shown ↦ elim (Bool-cases (p x)) [
        | inl hit ↦ rw (shown, hit) refl
        | inr miss ↦ rw (shown, miss) rest
      ]
    ]

pub find_same :
    {A : Type 0} (p q : A → Bool) → ((x : A) → p x ≡ q x) → (xs : List A) → find p xs ≡ find q xs
find_same p q same [] = refl
find_same p q same (x ∷ xs) = let rest = find_same p q same xs in rw (same x, rest) refl

pub and_assoc : (a b c : Bool) → ((a && b) && c) ≡ (a && (b && c))
and_assoc true b c = refl
and_assoc false b c = refl

pub find_apart :
    {A : Type 0} (p h : A → Bool)
    → ((x : A) → p x ≡ true → h x ≡ false)
    → (xs : List A) → find p (delete_where h xs) ≡ find p xs
find_apart p h apart xs = find-delete_where p h xs ∙ same xs
  where
    same : (ys : List _) → find (λ x. p x && not (h x)) ys ≡ find p ys
    same [] = refl
    same (y ∷ ys) = elim (Bool-cases (p y)) [
      | inl hit ↦ rw (hit, apart y hit) refl
      | inr miss ↦ rw miss (same ys)
    ]

text_eq_sym : (s t : Text) → text_eq s t ≡ text_eq t s
text_eq_sym [] [] = refl
text_eq_sym [] (b ∷ t) = refl
text_eq_sym (a ∷ s) [] = refl
text_eq_sym (a ∷ s) (b ∷ t) = ground (arith, text_eq_sym s t)

module _ (n : Text) where
  abbrev pub named : ProfileRow → Bool
  named r = text_eq r.username n

  absent :
      (r : ProfileRow) (rs : List ProfileRow)
      → named r ≡ true
      → all (λ s. not (text_eq s.username r.username)) rs ≡ true
      → (s : ProfileRow → Bool) → find (λ t. named t && s t) rs ≡ none
  absent r [] e h s = refl
  absent r (t ∷ rs) e h s =
      let other : text_eq t.username r.username ≡ false = ground (arith, h) in
      let differs : named t ≡ false = rw (text_eq→eq r.username n e) at other in
      rw differs (absent r rs e (ground (arith, h)) s)

  -- With unique names, a search by name and a test is a search by name, then the test.
  pub find-filtered :
      (q : ProfileRow → Bool) (rs : List ProfileRow)
      → HasUniqueNames rs
      → find (λ r. named r && q r) rs ≡ filtered q (find named rs)
  find-filtered q [] h = refl
  find-filtered q (r ∷ rs) (k, h) = elim (Bool-cases (named r)) [
    | inl hit ↦ elim (Bool-cases (q r)) [
      | inl good ↦ rw (hit, good) refl
      | inr bad ↦ rw (hit, bad) (absent r rs hit k q)
    ]
    | inr miss ↦ rw miss (find-filtered q rs h)
  ]

  apart :
      (r : ProfileRow) (rs : List ProfileRow)
      → named r ≡ true
      → all (λ s. not (text_eq s.username r.username)) rs ≡ true
      → any (text_eq n) (map (λ s. s.username) (select (λ s. s.finger_optout) rs)) ≡ false
  apart r [] e h = refl
  apart r (t ∷ rs) e h =
      let other : text_eq t.username r.username ≡ false = ground (arith, h) in
      let differs : named t ≡ false = rw (text_eq→eq r.username n e) at other in
      let rest = apart r rs e (ground (arith, h)) in
      elim (Bool-cases t.finger_optout) [
        | inl out ↦ rw (out, text_eq_sym n t.username, differs) rest
        | inr listed_here ↦ rw listed_here rest
      ]

  -- The name of an account that is found and has not opted out is not among those that have.
  pub unhidden :
      (rs : List ProfileRow) (r : ProfileRow)
      → HasUniqueNames rs
      → find named rs ≡ some r
      → r.finger_optout ≡ false
      → any (text_eq n) (map (λ s. s.username) (select (λ s. s.finger_optout) rs)) ≡ false
  unhidden [] r h e f = refl
  unhidden (s ∷ rs) r (k, h) e f = elim (Bool-cases (named s)) [
    | inl hit ↦
        let same : s ≡ r = let q : some s ≡ some r = rw hit at e in cc q in
        let own : s.finger_optout ≡ false = rw same f in rw own (apart s rs hit k)
    | inr miss ↦ elim (Bool-cases s.finger_optout) [
      | inl out ↦ rw (out, text_eq_sym n s.username, miss) (unhidden rs r h (rw miss at e) f)
      | inr listed_here ↦ rw listed_here (unhidden rs r h (rw miss at e) f)
    ]
  ]
