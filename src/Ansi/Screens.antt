-- ===== src/Ansi/Screens.antt =====
-- src/app/ansi.rs: the loop of `to_text` ends, and works alike on screens that keep alike outputs.
use mathlib.Core.Path.{subst}
use bbs_rs.Prelude.{
  ℕ, zero, suc, ◌≤◌, ◌<◌, ◌≡◌, refl, Bool, true, false, [], ◌∷◌, some, arith, Text, length, ltb,
  ◌==◌, if◌then◌else◌,
}
use bbs_rs.Ansi.{Screen, run, consume, escape, read_params, is_m, tab}

length-read_params : (cs : Text) → length (read_params cs).1.1 ≤ length cs
length-read_params [] = omega arith
length-read_params (c ∷ cs) = ground (arith, length-read_params cs)

module _ {A : Type 0} (screen : Screen A) where
  length-escape : (cs : Text) (a : A) → length (escape screen cs a).0 ≤ length cs
  length-escape [] a = omega arith
  length-escape (b ∷ cs) a = ground (arith, length-read_params cs)

  length-consume : (c : ℕ) (cs : Text) (a : A) → length (consume screen c cs a).0 ≤ length cs
  length-consume c cs a = ground (arith, length-escape cs a)

  pub run_returns :
      (f : ℕ) (cs : Text) (a : A) → length cs < f → (b : A) × (run screen f cs a ≡ some b)
  unfolding run
  run_returns zero cs a h = absurd (omega arith)
  run_returns (suc f) [] a h = (a, refl)
  run_returns (suc f) (c ∷ cs) a h =
      let next = consume screen c cs a in
      run_returns f next.0 next.1 (omega (arith, length-consume c cs a))

some_inj {ℓ} : {A : Type ℓ} {x y : A} → some x ≡ some y → x ≡ y
some_inj e = cc e

-- Two screens whose operations keep a relation between their outputs
module _ {A B : Type 0} (one : Screen A) (two : Screen B) (R : A → B → Type 0) where
  pub record Simulates : Type 0 where
    pub on_newline : (a : A) (b : B) → R a b → R (one.newline a) (two.newline b)
    pub on_put : (c : ℕ) (a : A) (b : B) → R a b → R (one.put c a) (two.put c b)
    pub on_sgr : (s : Text) (a : A) (b : B) → R a b → R (one.sgr s a) (two.sgr s b)

  abbrev Alike : Text × A → Text × B → Type 0
  Alike x y = (x.0 ≡ y.0) × R x.1 y.1

  if-Alike :
      (t : Bool) {x x' : Text × A} {y y' : Text × B}
      → Alike x y
      → Alike x' y'
      → Alike (if t then x else x') (if t then y else y')
  if-Alike true h h' = h
  if-Alike false h h' = h'

  if-R :
      (t : Bool) {a a' : A} {b b' : B}
      → R a b
      → R a' b'
      → R (if t then a else a') (if t then b else b')
  if-R true h h' = h
  if-R false h h' = h'

  escape-Alike :
      Simulates → (cs : Text) (a : A) (b : B) → R a b → Alike (escape one cs a) (escape two cs b)
  escape-Alike sim [] a b r = (refl, r)
  escape-Alike sim (d ∷ cs) a b r =
      let (params, (final_byte, _)) = read_params cs in
      if-Alike (d == b'[') (refl, if-R (is_m final_byte) (sim.on_sgr params a b r) r) (refl, r)

  tab-R : Simulates → (a : A) (b : B) → R a b → R (tab one a) (tab two b)
  tab-R sim a b r =
      let put : (a : A) (b : B) → R a b → R (one.put b' ' a) (two.put b' ' b) = sim.on_put b' ' in
      put _ _ (put _ _ (put _ _ (put a b r)))

  consume-Alike :
      Simulates
      → (c : ℕ) (cs : Text) (a : A) (b : B) → R a b
      → Alike (consume one c cs a) (consume two c cs b)
  consume-Alike sim c cs a b r =
      if-Alike (c == 0x0A) (refl, sim.on_newline a b r)
        (if-Alike (c == 0x0D) (refl, r)
          (if-Alike (c == 0x09) (refl, tab-R sim a b r)
            (if-Alike (c == 0x1B) (escape-Alike sim cs a b r)
              (if-Alike (ltb c 0x20) (refl, r) (refl, sim.on_put c a b r)))))

  pub run-Alike :
      Simulates
      → (f : ℕ) (cs : Text) (a : A) (b : B) → R a b
      → (a' : A) → run one f cs a ≡ some a'
      → (b' : B) × (run two f cs b ≡ some b') × R a' b'
  unfolding run
  run-Alike sim zero cs a b r a' e = cc
  run-Alike sim (suc f) [] a b r a' e = (b, refl, subst (λ x. R x b) (some_inj e) r)
  run-Alike sim (suc f) (c ∷ cs) a b r a' e =
      let next = consume two c cs b in
      let (same, r') = consume-Alike sim c cs a b r in
      run-Alike sim f next.0 (consume one c cs a).1 next.1 r' a' (rw same at e)
