-- ===== src/Template/Fuel.antt =====
-- src/template.rs: more fuel does not change a run of `exec` that ended.
use bbs_rs.Prelude.{
  ℕ, zero, suc, ◌≤◌, ◌≡◌, Bool, not, ◌&&◌, List, [], ◌∷◌, ◌++◌, Option, some, >>=-eq-some, arith,
  Text, if◌then◌else◌,
}
use bbs_rs.Template.{
  Token, Stop, eof, else_stop, end_stop, Context, Run, otherwise, branch, exec, text, var, if_,
  unless, else_, end_if, end_unless, get_var, substitute, truthy,
}

-- The second run gives every result that the first gives.
abbrev Extends : Run → Run → Type 0
Extends go more =
    (ts : List Token) (out : Text) (emit : Bool) (r : Stop × (List Token × Text))
    → go ts out emit ≡ some r
    → more ts out emit ≡ some r

otherwise_mono :
    (go more : Run)
    → Extends go more
    → (stop : Stop) (ts : List Token) (out : Text) (emit : Bool) (r : Stop × (List Token × Text))
    → otherwise go stop ts out emit ≡ some r
    → otherwise more stop ts out emit ≡ some r
otherwise_mono go more h else_stop ts out emit r e = h ts out emit r e
otherwise_mono go more h eof ts out emit r e = e
otherwise_mono go more h end_stop ts out emit r e = e

branch_mono :
    (go more : Run)
    → Extends go more
    → (ts : List Token) (out : Text) (emit test : Bool) (r : Stop × (List Token × Text))
    → branch go ts out emit test ≡ some r
    → branch more ts out emit test ≡ some r
branch_mono go more h ts out emit test r e =
    let ((stop, (ts1, out1)), e1, rest) = >>=-eq-some (go ts out (emit && test)) _ e in
    let ((stop2, (ts2, out2)), e2, e3) =
      >>=-eq-some (otherwise go stop ts1 out1 (emit && not test)) _ rest in
    let f1 = h ts out (emit && test) (stop, (ts1, out1)) e1 in
    let f2 = otherwise_mono go more h stop ts1 out1 (emit && not test) (stop2, (ts2, out2)) e2 in
    rw (f1, f2) (h ts2 out2 emit r e3)

module _ (ctx : Context) (escape : Option (Text → Text)) where
  pub exec_mono :
      (f g : ℕ)
      → f ≤ g
      → (ts : List Token) (out : Text) (emit : Bool) (r : Stop × (List Token × Text))
      → exec ctx escape f ts out emit ≡ some r
      → exec ctx escape g ts out emit ≡ some r
  unfolding exec
  exec_mono zero g h ts out emit r e = cc
  exec_mono (suc f) zero h ts out emit r e = absurd (omega arith)
  exec_mono (suc f) (suc g) h [] out emit r e = e
  exec_mono (suc f) (suc g) h (text t ∷ ts) out emit r e =
      exec_mono f g (omega arith) ts (if emit then out ++ t else out) emit r e
  exec_mono (suc f) (suc g) h (var name ∷ ts) out emit r e =
      exec_mono f g (omega arith) ts
        (if emit then out ++ substitute escape (get_var ctx name) else out) emit r e
  exec_mono (suc f) (suc g) h (if_ name ∷ ts) out emit r e =
      branch_mono (exec ctx escape f) (exec ctx escape g) (exec_mono f g (omega arith)) ts out emit
        (truthy ctx name) r e
  exec_mono (suc f) (suc g) h (unless name ∷ ts) out emit r e =
      branch_mono (exec ctx escape f) (exec ctx escape g) (exec_mono f g (omega arith)) ts out emit
        (not (truthy ctx name)) r e
  exec_mono (suc f) (suc g) h (else_ ∷ ts) out emit r e = e
  exec_mono (suc f) (suc g) h (end_if ∷ ts) out emit r e = e
  exec_mono (suc f) (suc g) h (end_unless ∷ ts) out emit r e = e
