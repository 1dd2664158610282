-- ===== src/Prelude/Rows.antt =====
-- Facts about the queries on one table.
use Prim.Native.Nat.{◌+◌, ◌<◌}
use mathlib.Core.Path.{◌≡◌, refl, sym, ap, ◌∙◌}
use mathlib.Core.Logic.{◌⊎◌, inl, inr}
use mathlib.Core.Bool.{Bool, true, false}
use mathlib.Core.Option.{none, some}
use mathlib.Core.List.{List, [], ◌∷◌, ◌++◌}
use native.Mathlib.Omega.{arith}
use bbs_rs.Prelude.Tests.{if◌then◌else◌, Bool-cases}
use bbs_rs.Prelude.Lists.{All}
use bbs_rs.Prelude.Queries.{find, update_where, delete_where, count_where}

module _ {A : Type 0} where
  -- A row stands in a table.
  abbrev pub In : A → List A → Type 0
  In a [] = ⊥
  In a (x ∷ xs) = (a ≡ x) ⊎ In a xs

  find-cons :
      (p : A → Bool) (x : A) (xs : List A)
      → ((p x ≡ true) × (find p (x ∷ xs) ≡ some x))
        ⊎ ((p x ≡ false) × (find p (x ∷ xs) ≡ find p xs))
  find-cons p x xs = elim (Bool-cases (p x)) [
    | inl hit ↦ inl (hit, rw hit refl)
    | inr miss ↦ inr (miss, rw miss refl)
  ]

  pub find-In : (p : A → Bool) (xs : List A) {a : A} → find p xs ≡ some a → In a xs × (p a ≡ true)
  find-In p [] e = cc
  find-In p (x ∷ xs) {a} e = elim (find-cons p x xs) [
    | inl (hit, found) ↦ let same : a ≡ x = cc in (inl same, rw same hit)
    | inr (miss, later) ↦ let (i, h) = find-In p xs (sym later ∙ e) in (inr i, h)
  ]

  pub find-none : (p : A → Bool) (xs : List A) → find p xs ≡ none → (a : A) → In a xs → p a ≡ false
  find-none p [] e a i = absurd i
  find-none p (x ∷ xs) e a i = elim (find-cons p x xs) [
    | inl (hit, found) ↦ cc
    | inr (miss, later) ↦ elim i [
      | inl same ↦ rw same miss
      | inr i' ↦ find-none p xs (sym later ∙ e) a i'
    ]
  ]

  pub find-append_none :
      (p : A → Bool) (xs : List A) (a : A)
      → find p xs ≡ none
      → p a ≡ true
      → find p (xs ++ a ∷ []) ≡ some a
  find-append_none p [] a e h = rw h refl
  find-append_none p (x ∷ xs) a e h = elim (find-cons p x xs) [
    | inl (hit, found) ↦ cc
    | inr (miss, later) ↦ rw miss (find-append_none p xs a (sym later ∙ e) h)
  ]

  -- A row of an updated table comes from a row of the table.
  pub In-update_where :
      (p : A → Bool) (f : A → A) (xs : List A) (a : A)
      → In a (update_where p f xs)
      → (x : A) × In x xs × (((p x ≡ true) × (a ≡ f x)) ⊎ ((p x ≡ false) × (a ≡ x)))
  In-update_where p f [] a i = absurd i
  In-update_where p f (x ∷ xs) a (inl e) = elim (Bool-cases (p x)) [
    | inl hit ↦ (x, inl refl, inl (hit, rw hit at e))
    | inr miss ↦ (x, inl refl, inr (miss, rw miss at e))
  ]
  In-update_where p f (x ∷ xs) a (inr i) =
      let (y, j, h) = In-update_where p f xs a i in (y, inr j, h)

  -- An update that does not touch what a query asks does not change which row it finds.
  pub find-update_where :
      (q p : A → Bool) (f : A → A)
      → ((x : A) → q (f x) ≡ q x)
      → (xs : List A) (a : A) → find q xs ≡ some a
      → find q (update_where p f xs) ≡ some (if p a then f a else a)
  find-update_where q p f keeps [] a e = cc
  find-update_where q p f keeps (x ∷ xs) a e = elim (find-cons q x xs) [
    | inl (hit, found) ↦ let same : x ≡ a = cc in rw (q-if x, hit, same) refl
    | inr (miss, later) ↦ rw (q-if x, miss) (find-update_where q p f keeps xs a (sym later ∙ e))
  ]
    where
      q-if : (y : A) → q (if p y then f y else y) ≡ q y
      q-if y = elim (Bool-cases (p y)) [ inl h ↦ rw h (keeps y) | inr h ↦ rw h refl ]

  pub count_where-pos :
      (p : A → Bool) (xs : List A) → 0 < count_where p xs → (a : A) × In a xs × (p a ≡ true)
  count_where-pos p [] h = absurd (omega arith)
  count_where-pos p (x ∷ xs) h = elim (Bool-cases (p x)) [
    | inl hit ↦ (x, inl refl, hit)
    | inr miss ↦ let (a, i, e) = count_where-pos p xs (ground arith) in (a, inr i, e)
  ]

  pub count_where-zero :
      (p : A → Bool) (xs : List A) → count_where p xs ≡ 0 → (a : A) → In a xs → p a ≡ false
  count_where-zero p [] h a i = absurd i
  count_where-zero p (x ∷ xs) h a (inl e) = ground arith
  count_where-zero p (x ∷ xs) h a (inr i) = count_where-zero p xs (ground arith) a i

  pub count_where_of_In :
      (p : A → Bool) (xs : List A) (a : A) → In a xs → p a ≡ true → 0 < count_where p xs
  count_where_of_In p [] a i h = absurd i
  count_where_of_In p (x ∷ xs) a (inl e) h = ground arith
  count_where_of_In p (x ∷ xs) a (inr i) h = omega (arith, count_where_of_In p xs a i h)

-- A row that an update passes over stays.
pub In-update_where_kept :
    {A : Type 0}
    → (p : A → Bool) (f : A → A) (xs : List A) (a : A) → In a xs
    → p a ≡ false
    → In a (update_where p f xs)
In-update_where_kept p f [] a i h = absurd i
In-update_where_kept p f (x ∷ xs) a (inl e) h =
    let miss : p x ≡ false = ap p (sym e) ∙ h in rw miss (inl e)
In-update_where_kept p f (x ∷ xs) a (inr i) h = inr (In-update_where_kept p f xs a i h)

module _ {A : Type 0} where
  pub count_where-append :
      (p : A → Bool) (xs ys : List A)
      → count_where p (xs ++ ys) ≡ count_where p xs + count_where p ys
  count_where-append p [] ys = omega arith
  count_where-append p (x ∷ xs) ys = let ih = count_where-append p xs ys in omega arith

  pub count_where-delete_where :
      (p : A → Bool) (xs : List A) → count_where p (delete_where p xs) ≡ 0
  count_where-delete_where p [] = refl
  count_where-delete_where p (x ∷ xs) = elim (Bool-cases (p x)) [
    | inl hit ↦ rw hit (count_where-delete_where p xs)
    | inr miss ↦ rw (miss, miss) (omega (arith, count_where-delete_where p xs))
  ]

  -- Deleting some rows does not change how many others there are.
  pub count_where-delete_where_apart :
      (q p : A → Bool)
      → ((x : A) → q x ≡ true → p x ≡ false)
      → (xs : List A) → count_where q (delete_where p xs) ≡ count_where q xs
  count_where-delete_where_apart q p apart [] = refl
  count_where-delete_where_apart q p apart (x ∷ xs) = elim (Bool-cases (p x)) [
    | inl hit ↦
        let other : q x ≡ false = elim (Bool-cases (q x)) [
          | inl asked ↦ cc (apart x asked)
          | inr other ↦ other
        ] in
        rw (hit, other) (omega (arith, count_where-delete_where_apart q p apart xs))
    | inr miss ↦
        rw miss (ap (λ n. (if q x then 1 else 0) + n) (count_where-delete_where_apart q p apart xs))
  ]

  pub All-delete_where {ℓ} :
      (P : A → Type ℓ) (p : A → Bool) (xs : List A) → All P xs → All P (delete_where p xs)
  All-delete_where P p [] h = tt
  All-delete_where P p (x ∷ xs) (here, there) = elim (Bool-cases (p x)) [
    | inl hit ↦ rw hit (All-delete_where P p xs there)
    | inr miss ↦ rw miss (here, All-delete_where P p xs there)
  ]

-- A row that a deletion passes over stays.
pub In-delete_where_kept :
    {A : Type 0} (p : A → Bool) (xs : List A) (a : A)
    → In a xs
    → p a ≡ false
    → In a (delete_where p xs)
In-delete_where_kept p [] a i h = absurd i
In-delete_where_kept p (x ∷ xs) a (inl e) h =
    let miss : p x ≡ false = ap p (sym e) ∙ h in rw miss (inl e)
In-delete_where_kept p (x ∷ xs) a (inr i) h = elim (Bool-cases (p x)) [
  | inl hit ↦ rw hit (In-delete_where_kept p xs a i h)
  | inr miss ↦ rw miss (inr (In-delete_where_kept p xs a i h))
]
