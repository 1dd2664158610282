-- ===== src/Prelude/Vectors.antt =====
-- `Vec` operations that panic out of range: `none` is the panic.
use Prim.Native.Nat.{ℕ, zero, suc}
use mathlib.Core.Path.{◌≡◌, refl}
use mathlib.Core.Option
use mathlib.Core.Option.{Option, none, some}
use mathlib.Core.List.{List, [], ◌∷◌, ◌++◌}
use native.Mathlib.Omega.{arith}
use bbs_rs.Prelude.Lists.{length, get_elem?}

module _ {ℓ} {A : Type ℓ} where
  -- `Vec::insert`
  abbrev pub insert? : List A → ℕ → A → Option (List A)
  insert? xs zero v = some (v ∷ xs)
  insert? [] (suc i) v = none
  insert? (x ∷ xs) (suc i) v = Option.map (x ∷◌) (insert? xs i v)

  -- `Vec::remove`, the vector that is left
  abbrev pub remove? : List A → ℕ → Option (List A)
  remove? [] _ = none
  remove? (_ ∷ xs) zero = some xs
  remove? (x ∷ xs) (suc i) = Option.map (x ∷◌) (remove? xs i)

  abbrev cons_first : A → List A × List A → List A × List A
  cons_first x (ys, zs) = (x ∷ ys, zs)

  -- `Vec::split_off`: what stays, and the tail
  abbrev pub split_off? : List A → ℕ → Option (List A × List A)
  split_off? xs zero = some ([], xs)
  split_off? [] (suc i) = none
  split_off? (x ∷ xs) (suc i) = Option.map (cons_first x) (split_off? xs i)

  pub insert?-append :
      (xs ys : List A) (v : A) (n : ℕ)
      → n ≡ length xs
      → insert? (xs ++ ys) n v ≡ some (xs ++ v ∷ ys)
  insert?-append [] ys v zero e = refl
  insert?-append [] ys v (suc n) e = absurd (omega arith)
  insert?-append (x ∷ xs) ys v zero e = absurd (omega arith)
  insert?-append (x ∷ xs) ys v (suc n) e = rw (insert?-append xs ys v n (omega arith)) refl

  pub remove?-append-cons :
      (xs ys : List A) (v : A) (n : ℕ) → n ≡ length xs → remove? (xs ++ v ∷ ys) n ≡ some (xs ++ ys)
  remove?-append-cons [] ys v zero e = refl
  remove?-append-cons [] ys v (suc n) e = absurd (omega arith)
  remove?-append-cons (x ∷ xs) ys v zero e = absurd (omega arith)
  remove?-append-cons (x ∷ xs) ys v (suc n) e =
      rw (remove?-append-cons xs ys v n (omega arith)) refl

  pub split_off?-append :
      (xs ys : List A) (n : ℕ) → n ≡ length xs → split_off? (xs ++ ys) n ≡ some (xs, ys)
  split_off?-append [] ys zero e = refl
  split_off?-append [] ys (suc n) e = absurd (omega arith)
  split_off?-append (x ∷ xs) ys zero e = absurd (omega arith)
  split_off?-append (x ∷ xs) ys (suc n) e = rw (split_off?-append xs ys n (omega arith)) refl

  -- The same one place further on.
  pub get_elem?-append-next :
      (xs ys : List A) (y z : A) (n : ℕ)
      → n ≡ suc (length xs)
      → get_elem? (xs ++ y ∷ z ∷ ys) n ≡ some z
  get_elem?-append-next xs ys y z zero e = absurd (omega arith)
  get_elem?-append-next [] ys y z (suc n) e = let e' : n ≡ 0 = omega arith in rw e' refl
  get_elem?-append-next (x ∷ xs) ys y z (suc n) e = get_elem?-append-next xs ys y z n (omega arith)

  pub remove?-append-next :
      (xs ys : List A) (y z : A) (n : ℕ)
      → n ≡ suc (length xs)
      → remove? (xs ++ y ∷ z ∷ ys) n ≡ some (xs ++ y ∷ ys)
  remove?-append-next xs ys y z zero e = absurd (omega arith)
  remove?-append-next [] ys y z (suc n) e = let e' : n ≡ 0 = omega arith in rw e' refl
  remove?-append-next (x ∷ xs) ys y z (suc n) e =
      rw (remove?-append-next xs ys y z n (omega arith)) refl

  pub insert?-append-next :
      (xs ys : List A) (y z : A) (n : ℕ)
      → n ≡ suc (length xs)
      → insert? (xs ++ y ∷ ys) n z ≡ some (xs ++ y ∷ z ∷ ys)
  insert?-append-next xs ys y z zero e = absurd (omega arith)
  insert?-append-next [] ys y z (suc n) e = let e' : n ≡ 0 = omega arith in rw e' refl
  insert?-append-next (x ∷ xs) ys y z (suc n) e =
      rw (insert?-append-next xs ys y z n (omega arith)) refl
