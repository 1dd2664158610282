-- ===== src/Boards/Laws/Threads/Counts.antt =====
-- src/services/boards.rs: counts and lengths through the lists of a walk in `list_thread`.
use mathlib.Core.Path.{subst}
use bbs_rs.Prelude.{
  ℕ, suc, ◌+◌, ◌≤◌, ◌<◌, ◌≡◌, refl, sym, ap, ◌∙◌, Bool, true, false, not, List, [], ◌∷◌, map, ◌⊎◌,
  inl, inr, Bool-cases, arith, length, any, if◌then◌else◌, reverse, reverse-cons, leb, ltb,
  delete_where, count_where, count_where-append, In, All,
}
use bbs_rs.Accounts.Admin.{select}
use bbs_rs.Boards.{Message}
use bbs_rs.Boards.Threads.{ThreadItem, insert_by_id, sort_by_id, item}

-- Counting through the parts of a walk
pub count-insert_by_id :
    (p : Message → Bool) (m : Message) (ks : List Message)
    → count_where p (insert_by_id m ks) ≡ count_where p (m ∷ ks)
count-insert_by_id p m [] = refl
count-insert_by_id p m (k ∷ ks) = elim (Bool-cases (leb m.id k.id)) [
  | inl le ↦ rw le refl
  | inr gt ↦ rw gt (omega (arith, count-insert_by_id p m ks))
]

pub count-sort_by_id :
    (p : Message → Bool) (ms : List Message) → count_where p (sort_by_id ms) ≡ count_where p ms
count-sort_by_id p [] = refl
count-sort_by_id p (m ∷ ms) =
    count-insert_by_id p m (sort_by_id ms)
    ∙ ap (λ n. (if p m then 1 else 0) + n) (count-sort_by_id p ms)

pub count-split :
    (p q : Message → Bool) (ms : List Message)
    → count_where p (select q ms) + count_where p (delete_where q ms) ≡ count_where p ms
count-split p q [] = refl
count-split p q (m ∷ ms) = elim (Bool-cases (q m)) [
  | inl hit ↦ rw hit (omega (arith, count-split p q ms))
  | inr miss ↦ rw miss (omega (arith, count-split p q ms))
]

abbrev pub count_items : (Message → Bool) → List ThreadItem → ℕ
count_items p is = count_where (λ i. p i.message) is

pub count_items-map :
    (p : Message → Bool) (depth : ℕ) (ms : List Message)
    → count_items p (map (item depth) ms) ≡ count_where p ms
count_items-map p depth [] = refl
count_items-map p depth (m ∷ ms) = ap (λ n. (if p m then 1 else 0) + n) (count_items-map p depth ms)

-- Deleting rows makes no count grow.
pub count-delete_where-le :
    (p q : Message → Bool) (ms : List Message)
    → count_where p (delete_where q ms) ≤ count_where p ms
count-delete_where-le p q ms = omega (arith, count-split p q ms)

-- A list is as long as the count of all of it.
pub count-anything : (ms : List Message) → count_where (λ _. true) ms ≡ length ms
count-anything [] = refl
count-anything (m ∷ ms) = omega (arith, count-anything ms)

pub length-sort_by_id : (ms : List Message) → length (sort_by_id ms) ≡ length ms
length-sort_by_id ms =
    sym (count-anything (sort_by_id ms)) ∙ count-sort_by_id (λ _. true) ms ∙ count-anything ms

pub length-split :
    (q : Message → Bool) (ms : List Message)
    → length (select q ms) + length (delete_where q ms) ≡ length ms
length-split q ms = omega (
  arith,
  count-split (λ _. true) q ms,
  count-anything ms,
  count-anything (select q ms),
  count-anything (delete_where q ms),
)

pub length-map-item : (depth : ℕ) (ms : List Message) → length (map (item depth) ms) ≡ length ms
length-map-item depth [] = refl
length-map-item depth (m ∷ ms) = ap suc (length-map-item depth ms)

pub ltb-false : (n : ℕ) → ltb 0 n ≡ false → n ≡ 0
ltb-false n h = ground arith

pub All-at : (P : Message → Type 0) (ms : List Message) (m : Message) → All P ms → In m ms → P m
All-at P [] m h i = absurd i
All-at P (k ∷ ms) m h (inl e) = subst P (sym e) h.0
All-at P (k ∷ ms) m h (inr i) = All-at P ms m h.1 i

pub count-pos_of_any :
    (p : Message → Bool) (ms : List Message) → any p ms ≡ true → 0 < count_where p ms
count-pos_of_any p [] h = cc
count-pos_of_any p (m ∷ ms) h = elim (Bool-cases (p m)) [
  | inl hit ↦ rw hit (omega arith)
  | inr miss ↦
      let later : any p ms ≡ true = rw miss at h in
      rw miss (omega (arith, count-pos_of_any p ms later))
]

pub List-cases {ℓ} :
    {A : Type ℓ} (xs : List A) → (xs ≡ []) ⊎ ((x : A) × (ys : List A) × (xs ≡ x ∷ ys))
List-cases [] = inl refl
List-cases (x ∷ xs) = inr (x, xs, refl)

pub count-either :
    (p q : Message → Bool) (ms : List Message)
    → count_where p (select q ms) + count_where p (select (λ m. not (q m)) ms) ≡ count_where p ms
count-either p q [] = refl
count-either p q (m ∷ ms) = elim (Bool-cases (q m)) [
  | inl hit ↦ rw hit (omega (arith, count-either p q ms))
  | inr miss ↦ rw miss (omega (arith, count-either p q ms))
]

pub count-reverse :
    (p : Message → Bool) (ms : List Message) → count_where p (reverse ms) ≡ count_where p ms
count-reverse p [] = refl
count-reverse p (m ∷ ms) =
    ap (count_where p) (reverse-cons m ms)
    ∙ count_where-append p (reverse ms) (m ∷ [])
    ∙ omega (arith, count-reverse p ms)
