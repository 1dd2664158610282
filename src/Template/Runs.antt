-- ===== src/Template/Runs.antt =====
-- src/template.rs: `exec` and the loops around it end, and more fuel changes nothing.
use bbs_rs.Prelude.{
  ℕ, zero, suc, ◌≤◌, ◌<◌, ◌≡◌, refl, ◌==◌, Bool, true, not, ◌&&◌, List, [], ◌∷◌, ◌++◌, Option, none,
  some, arith, length, Text, if◌then◌else◌, trim, inl, inr, Option-cases, is_some, Bool-cases,
}
use bbs_rs.Template.{
  Token, Stop, eof, else_stop, end_stop, Context, Ran, Run, otherwise, branch, exec, again,
  exec_all, text, text_token, var, if_, unless, else_, end_if, end_unless, get_var, substitute,
  truthy, split_pair, tokenize, parse_tag, render_with,
}

-- A run that stops with at most `n` tokens left.
abbrev Returns : Ran → ℕ → Type 0
Returns r n =
    (stop : Stop) × (rest : List Token) × (out : Text) × (r ≡ some (stop, (rest, out)))
    × (length rest ≤ n)

Returns-le : (r : Ran) (m n : ℕ) → m ≤ n → Returns r m → Returns r n
Returns-le r m n h (stop, rest, out, e, b) = (stop, rest, out, e, omega arith)

-- A run that returns wherever the tokens left are at most `n`.
abbrev Ends : Run → ℕ → Type 0
Ends go n =
    (ts : List Token) (out : Text) (emit : Bool)
    → length ts ≤ n
    → Returns (go ts out emit) (length ts)

otherwise-Returns :
    (go : Run) (n : ℕ)
    → Ends go n
    → (stop : Stop) (ts : List Token) (out : Text) (emit : Bool) → length ts ≤ n
    → Returns (otherwise go stop ts out emit) (length ts)
otherwise-Returns go n ends else_stop ts out emit h = ends ts out emit h
otherwise-Returns go n ends eof ts out emit h = (eof, ts, out, refl, omega arith)
otherwise-Returns go n ends end_stop ts out emit h = (end_stop, ts, out, refl, omega arith)

branch-Returns :
    (go : Run) (n : ℕ)
    → Ends go n
    → (ts : List Token) (out : Text) (emit test : Bool) → length ts ≤ n
    → Returns (branch go ts out emit test) (length ts)
branch-Returns go n ends ts out emit test h =
    let (stop, ts1, out1, e1, h1) = ends ts out (emit && test) h in
    let (stop2, ts2, out2, e2, h2) =
      otherwise-Returns go n ends stop ts1 out1 (emit && not test) (omega arith) in
    let (stop3, ts3, out3, e3, h3) = ends ts2 out2 emit (omega arith) in
    (stop3, ts3, out3, rw (e1, e2, e3) refl, omega arith)

-- The number of tokens after the first.
abbrev left : List Token → ℕ
left [] = 0
left (_ ∷ ts) = length ts

left-le : (ts : List Token) → left ts ≤ length ts
left-le [] = omega arith
left-le (_ ∷ ts) = omega arith

Returns-left : (r : Ran) (ts : List Token) → Returns r (left ts) → Returns r (length ts)
Returns-left r ts h = Returns-le r (left ts) (length ts) (left-le ts) h

module _ (ctx : Context) (escape : Option (Text → Text)) where
  -- With more fuel than tokens a run returns, past the first token if there is one.
  pub exec-Returns :
      (f : ℕ) (ts : List Token) (out : Text) (emit : Bool)
      → length ts < f
      → Returns (exec ctx escape f ts out emit) (left ts)
  unfolding exec
  exec-Returns zero ts out emit h = absurd (omega arith)
  exec-Returns (suc f) [] out emit h = (eof, [], out, refl, omega arith)
  exec-Returns (suc f) (text t ∷ ts) out emit h =
      Returns-left _ ts (exec-Returns f ts (if emit then out ++ t else out) emit (omega arith))
  exec-Returns (suc f) (var name ∷ ts) out emit h = Returns-left _ ts (
      exec-Returns f ts (if emit then out ++ substitute escape (get_var ctx name) else out) emit
        (omega arith))
  exec-Returns (suc f) (if_ name ∷ ts) out emit h =
      branch-Returns (exec ctx escape f) (length ts)
        (λ us o e le. Returns-left _ us (exec-Returns f us o e (omega arith))) ts out emit
        (truthy ctx name) (omega arith)
  exec-Returns (suc f) (unless name ∷ ts) out emit h =
      branch-Returns (exec ctx escape f) (length ts)
        (λ us o e le. Returns-left _ us (exec-Returns f us o e (omega arith))) ts out emit
        (not (truthy ctx name)) (omega arith)
  exec-Returns (suc f) (else_ ∷ ts) out emit h = (else_stop, ts, out, refl, omega arith)
  exec-Returns (suc f) (end_if ∷ ts) out emit h = (end_stop, ts, out, refl, omega arith)
  exec-Returns (suc f) (end_unless ∷ ts) out emit h = (end_stop, ts, out, refl, omega arith)

  abbrev AllReturns : (List Token → Text → Option Text) → ℕ → Type 0
  AllReturns go n =
      (ts : List Token) (out : Text) → length ts ≤ n → (out' : Text) × (go ts out ≡ some out')

  again-AllReturns :
      (go : List Token → Text → Option Text) (n : ℕ)
      → AllReturns go n
      → (stop : Stop) (ts : List Token) (out : Text) → length ts ≤ n
      → (out' : Text) × (again ctx escape go stop ts out ≡ some out')
  again-AllReturns go n ends eof ts out h = (out, refl)
  again-AllReturns go n ends else_stop ts out h = ends ts out h
  again-AllReturns go n ends end_stop ts out h = ends ts out h

  pub exec_all_returns :
      (f : ℕ) (ts : List Token) (out : Text)
      → length ts < f
      → (out' : Text) × (exec_all ctx escape f ts out ≡ some out')
  unfolding exec_all
  exec_all_returns zero ts out h = absurd (omega arith)
  exec_all_returns (suc f) [] out h = (out, refl)
  exec_all_returns (suc f) (t ∷ ts) out h =
      let (stop, rest, out1, e, le) = exec-Returns (suc f) (t ∷ ts) out true h in
      let (out2, e2) =
        again-AllReturns (exec_all ctx escape f) (length ts)
          (λ us o le. exec_all_returns f us o (omega arith)) stop rest out1 le in
      (out2, rw (e, e2) refl)

no_text : {a : Text × Text} → ¬ (none ≡ some a)
no_text e = cc e

-- What is left after two characters is shorter by two.
pub length-split_pair :
    (c : ℕ) (s before after : Text)
    → split_pair c s ≡ some (before, after)
    → suc (suc (length after)) ≤ length s
length-split_pair c [] before after e = cc
length-split_pair c (a ∷ []) before after e = cc
length-split_pair c (a ∷ b ∷ s) before after e = elim (Bool-cases (a == c && b == c)) [
  | inl found ↦ ground (arith, e, found)
  | inr other ↦ elim (Option-cases (split_pair c (b ∷ s))) [
    | inl missing ↦ absurd (no_text (rw (other, missing) at e))
    | inr ((before1, after1), q) ↦
        let found : some (a ∷ before1, after1) ≡ some (before, after) = rw (other, q) at e in
        let shorter = length-split_pair c (b ∷ s) before1 after1 q in ground (arith, found, shorter)
  ]
]

-- Cutting a template into tokens ends.
pub tokenize_returns :
    (f : ℕ) (s : Text) → length s < f → (ts : List Token) × (tokenize f s ≡ some ts)
unfolding tokenize
tokenize_returns zero s h = absurd (omega arith)
tokenize_returns (suc f) s h = elim (Option-cases (split_pair b'{' s)) [
  | inl none_open ↦ (text_token s [], rw none_open refl)
  | inr ((before, after_open), opened) ↦ elim (Option-cases (split_pair b'}' after_open)) [
    | inl none_close ↦
        (text_token before (text (b'{' ∷ b'{' ∷ after_open) ∷ []), rw (opened, none_close) refl)
    | inr ((inner, rest), closed) ↦
        let shorter = length-split_pair b'{' s before after_open opened in
        let shorter2 = length-split_pair b'}' after_open inner rest closed in
        let (ts, e) = tokenize_returns f rest (omega arith) in
        (text_token before (parse_tag (trim inner) ∷ ts), rw (opened, closed, e) refl)
  ]
]

-- Rendering ends with an output for every template, malformed ones too, every context and with or
-- without an escape.
pub render_with_returns :
    (ctx : Context) (escape : Option (Text → Text)) (template : Text)
    → (out : Text) × (render_with ctx escape template ≡ some out)
unfolding render_with
render_with_returns ctx escape template = elim (Bool-cases (is_some (split_pair b'{' template))) [
  | inl tagged ↦
      let (ts, cut) = tokenize_returns (suc (length template)) template (omega arith) in
      let (out, e) = exec_all_returns ctx escape (suc (length ts)) ts [] (omega arith) in
      (out, rw (tagged, cut, e) refl)
  | inr plain ↦ (template, rw plain refl)
]
