-- ===== src/Template/Tree.antt =====
-- src/template.rs: a template as a tree of nested conditionals, its tokens, its text and its value.
use bbs_rs.Prelude.{
  ℕ, zero, suc, ◌+◌, ◌≤◌, ◌≡◌, refl, ap, Bool, true, false, not, ◌&&◌, List, [], ◌∷◌, ◌++◌, Option,
  some, arith, Text, if◌then◌else◌, append_assoc, append-nil,
}
use bbs_rs.Template.{
  Token, Stop, else_stop, end_stop, Context, branch, exec, text, var, if_, unless, else_, end_if,
  end_unless, get_var, substitute, truthy,
}
use bbs_rs.Template.Fuel.{exec_mono}

-- `only` has one branch and `choose` two; their first argument is the outcome of the test at which
-- the first branch is taken, `true` for `#if` and `false` for `#unless`.
pub data Doc : Type 0 where
  done : Doc
  plain value : Text → Doc → Doc
  only : Bool → Text → Doc → Doc → Doc
  choose : Bool → Text → Doc → Doc → Doc → Doc

abbrev pub opener : Bool → Text → Token
opener true name = if_ name
opener false name = unless name

abbrev pub closer : Bool → Token
closer true = end_if
closer false = end_unless

-- The tokens of a tree, before those that follow it.
abbrev pub tokens : Doc → List Token → List Token
tokens done ts = ts
tokens (plain t d) ts = text t ∷ tokens d ts
tokens (value name d) ts = var name ∷ tokens d ts
tokens (only wanted name b d) ts = opener wanted name ∷ tokens b (closer wanted ∷ tokens d ts)
tokens (choose wanted name b c d) ts =
    opener wanted name ∷ tokens b (else_ ∷ tokens c (closer wanted ∷ tokens d ts))

abbrev pub size : Doc → ℕ
size done = 0
size (plain t d) = suc (size d)
size (value name d) = suc (size d)
size (only wanted name b d) = suc (suc (size b + size d))
size (choose wanted name b c d) = suc (suc (suc (size b + (size c + size d))))

module _ (ctx : Context) (escape : Option (Text → Text)) where
  abbrev pub taken : Bool → Text → Bool
  taken true name = truthy ctx name
  taken false name = not (truthy ctx name)

  -- What a tree is meant to print.
  abbrev pub evaluate : Doc → Text
  evaluate done = []
  evaluate (plain t d) = t ++ evaluate d
  evaluate (value name d) = substitute escape (get_var ctx name) ++ evaluate d
  evaluate (only wanted name b d) =
      let first = evaluate b in (if taken wanted name then first else []) ++ evaluate d
  evaluate (choose wanted name b c d) =
      let first = evaluate b in
      let second = evaluate c in (if taken wanted name then first else second) ++ evaluate d

  abbrev shown : Bool → Text → Text
  shown emit s = if emit then s else []

  exec-opener :
      (f : ℕ) (wanted : Bool) (name : Text) (ts : List Token) (out : Text) (emit : Bool)
      → exec ctx escape (suc f) (opener wanted name ∷ ts) out emit
        ≡ branch (exec ctx escape f) ts out emit (taken wanted name)
  unfolding exec
  exec-opener f true name ts out emit = refl
  exec-opener f false name ts out emit = refl

  exec-closer :
      (wanted : Bool) (ts : List Token) (out : Text) (emit : Bool)
      → exec ctx escape 1 (closer wanted ∷ ts) out emit ≡ some (end_stop, (ts, out))
  unfolding exec
  exec-closer true ts out emit = refl
  exec-closer false ts out emit = refl

  append-shown_nil : (emit : Bool) (out : Text) → out ++ shown emit [] ≡ out
  append-shown_nil true out = append-nil out
  append-shown_nil false out = append-nil out

  append-emitted :
      (emit : Bool) (out s t : Text)
      → (if emit then out ++ s else out) ++ shown emit t ≡ out ++ shown emit (s ++ t)
  append-emitted true out s t = append_assoc out s t
  append-emitted false out s t = refl

  append-only :
      (emit test : Bool) (out s t : Text)
      → (out ++ shown (emit && test) s) ++ shown emit t
        ≡ out ++ shown emit ((if test then s else []) ++ t)
  append-only true true out s t = append_assoc out s t
  append-only true false out s t = ap (◌++ t) (append-nil out)
  append-only false test out s t = append-nil (out ++ [])

  append-choose :
      (emit test : Bool) (out s1 s2 t : Text)
      → ((out ++ shown (emit && test) s1) ++ shown (emit && not test) s2) ++ shown emit t
        ≡ out ++ shown emit ((if test then s1 else s2) ++ t)
  append-choose true true out s1 s2 t = rw (append-nil (out ++ s1)) (append_assoc out s1 t)
  append-choose true false out s1 s2 t = rw (append-nil out) (append_assoc out s2 t)
  append-choose false test out s1 s2 t = rw (append-nil (out ++ []), append-nil (out ++ [])) refl

  -- A tree's tokens print its value if the run emits, and nothing otherwise, whatever comes after.
  pub exec-tokens :
      (d : Doc) (ts : List Token) (out : Text) (emit : Bool) (g f : ℕ)
      (r : Stop × (List Token × Text))
      → exec ctx escape g ts (out ++ shown emit (evaluate d)) emit ≡ some r
      → g + size d ≤ f
      → exec ctx escape f (tokens d ts) out emit ≡ some r
  unfolding exec
  exec-tokens done ts out emit g f r e h =
      exec_mono ctx escape g f (omega arith) ts out emit r (rw (append-shown_nil emit out) at e)
  exec-tokens (plain t d) ts out emit g zero r e h = absurd (omega arith)
  exec-tokens (plain t d) ts out emit g (suc f) r e h =
      exec-tokens d ts (if emit then out ++ t else out) emit g f r
        (rw (append-emitted emit out t (evaluate d)) e) (omega arith)
  exec-tokens (value name d) ts out emit g zero r e h = absurd (omega arith)
  exec-tokens (value name d) ts out emit g (suc f) r e h =
      let s = substitute escape (get_var ctx name) in
      exec-tokens d ts (if emit then out ++ s else out) emit g f r
        (rw (append-emitted emit out s (evaluate d)) e) (omega arith)
  exec-tokens (only wanted name b d) ts out emit g zero r e h = absurd (omega arith)
  exec-tokens (only wanted name b d) ts out emit g (suc f) r e h =
      let test = taken wanted name in
      let out1 = out ++ shown (emit && test) (evaluate b) in
      let first =
        exec-tokens b (closer wanted ∷ tokens d ts) out (emit && test) 1 f
          (end_stop, (tokens d ts, out1)) (exec-closer wanted (tokens d ts) out1 (emit && test))
          (omega arith) in
      let after =
        exec-tokens d ts out1 emit g f r
          (rw (append-only emit test out (evaluate b) (evaluate d)) e) (omega arith) in
      rw (exec-opener f wanted name, first) after
  exec-tokens (choose wanted name b c d) ts out emit g zero r e h = absurd (omega arith)
  exec-tokens (choose wanted name b c d) ts out emit g (suc f) r e h =
      let test = taken wanted name in
      let out1 = out ++ shown (emit && test) (evaluate b) in
      let out2 = out1 ++ shown (emit && not test) (evaluate c) in
      let rest = tokens c (closer wanted ∷ tokens d ts) in
      let first =
        exec-tokens b (else_ ∷ rest) out (emit && test) 1 f (else_stop, (rest, out1)) refl
          (omega arith) in
      let second =
        exec-tokens c (closer wanted ∷ tokens d ts) out1 (emit && not test) 1 f
          (end_stop, (tokens d ts, out2)) (exec-closer wanted (tokens d ts) out2 (emit && not test))
          (omega arith) in
      let after =
        exec-tokens d ts out2 emit g f r
          (rw (append-choose emit test out (evaluate b) (evaluate c) (evaluate d)) e)
          (omega arith) in
      rw (exec-opener f wanted name, first, second) after
