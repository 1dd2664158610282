-- ===== src/Template/Kept.antt =====
-- src/template.rs: a property of characters that the template and the substitutions have is kept.
use bbs_rs.Prelude.{
  ℕ, zero, suc, ◌≡◌, refl, Bool, true, false, not, ◌&&◌, List, [], ◌∷◌, ◌++◌, Option, none, some,
  >>=-eq-some, inl, inr, Option-cases, Bool-cases, ◌==◌, ==_iff, arith, all, Text, codes, trim,
  if◌then◌else◌, is_some, length, all-append,
}
use bbs_rs.Template.{
  Value, Token, Stop, eof, else_stop, end_stop, text, var, if_, unless, else_, end_if, end_unless,
  Context, get_var, truthy, split_pair, strip_prefix, parse_word, parse_unless, parse_if, parse_tag,
  text_token, tokenize, Run, otherwise, branch, exec, again, exec_all, substitute, render_with,
}

-- A property of characters that holds throughout the texts of a list of tokens
module _ (p : ℕ → Bool) where
  abbrev token_ok : Token → Bool
  token_ok (text t) = all p t
  token_ok _ = true

  abbrev tokens_ok : List Token → Bool
  tokens_ok = all token_ok

  all-split_pair :
      (c : ℕ) (s before after : Text)
      → all p s ≡ true
      → split_pair c s ≡ some (before, after)
      → (all p before ≡ true) × (all p after ≡ true) × (p c ≡ true)
  all-split_pair c [] before after h e = cc
  all-split_pair c (a ∷ []) before after h e = cc
  all-split_pair c (a ∷ b ∷ s) before after h e = elim (Bool-cases (a == c && b == c)) [
    | inl found ↦
        let same : a ≡ c = (==_iff a c).0 (ground arith) in
        let pa : p a ≡ true = ground arith in
        let ends : some ([], s) ≡ some (before, after) = rw found at e in
        let pc : p c ≡ true = rw same at pa in ground (arith, ends, pc)
    | inr other ↦
        let rest_ok : all p (b ∷ s) ≡ true = ground arith in
        elim (Option-cases (split_pair c (b ∷ s))) [
          | inl missing ↦
              let ends : none ≡ some (before, after) = rw (other, missing) at e in cc ends
          | inr ((before1, after1), q) ↦
              let ends : some (a ∷ before1, after1) ≡ some (before, after) = rw (other, q) at e in
              let (hb, ha, hc) = all-split_pair c (b ∷ s) before1 after1 rest_ok q in
              let pa : p a ≡ true = ground arith in ground (arith, ends, hb, ha, hc, pa)
        ]
  ]

  parse_word-ok : (s : Text) → token_ok (parse_word s) ≡ true
  parse_word-ok s = ground arith

  parse_unless-ok : (o : Option Text) (s : Text) → token_ok (parse_unless o s) ≡ true
  parse_unless-ok none s = parse_word-ok s
  parse_unless-ok (some name) s = refl

  parse_if-ok : (o : Option Text) (s : Text) → token_ok (parse_if o s) ≡ true
  parse_if-ok none s = parse_unless-ok (strip_prefix (codes "#unless ") s) s
  parse_if-ok (some name) s = refl

  parse_tag-ok : (s : Text) → token_ok (parse_tag s) ≡ true
  parse_tag-ok s = parse_if-ok (strip_prefix (codes "#if ") s) s

  text_token-ok :
      (t : Text) (ts : List Token)
      → all p t ≡ true
      → tokens_ok ts ≡ true
      → tokens_ok (text_token t ts) ≡ true
  text_token-ok [] ts ht hts = hts
  text_token-ok (c ∷ t) ts ht hts = ground (arith, ht, hts)

  tokenize-ok :
      (f : ℕ) (s : Text) (ts : List Token)
      → all p s ≡ true
      → tokenize f s ≡ some ts
      → tokens_ok ts ≡ true
  unfolding tokenize
  tokenize-ok zero s ts h e = cc
  tokenize-ok (suc f) s ts h e = elim (Option-cases (split_pair b'{' s)) [
    | inl no_open ↦
        let cut : some (text_token s []) ≡ some ts = rw no_open at e in
        ground (arith, cut, text_token-ok s [] h refl)
    | inr ((before, after_open), opened) ↦
        let (hb, ha, hc) = all-split_pair b'{' s before after_open h opened in
        elim (Option-cases (split_pair b'}' after_open)) [
          | inl no_close ↦
              let last = text (b'{' ∷ b'{' ∷ after_open) in
              let cut : some (text_token before (last ∷ [])) ≡ some ts =
                rw (opened, no_close) at e in
              let ok : tokens_ok (last ∷ []) ≡ true = ground (arith, hc, ha) in
              ground (arith, cut, text_token-ok before (last ∷ []) hb ok)
          | inr ((inner, rest), closed) ↦
              let (_, hr, _) = all-split_pair b'}' after_open inner rest ha closed in
              elim (Option-cases (tokenize f rest)) [
                | inl stuck ↦ let cut : none ≡ some ts = rw (opened, closed, stuck) at e in cc cut
                | inr (us, q) ↦
                    let u = parse_tag (trim inner) in
                    let cut : some (text_token before (u ∷ us)) ≡ some ts =
                      rw (opened, closed, q) at e in
                    let rest_ok = tokenize-ok f rest us hr q in
                    let ok : tokens_ok (u ∷ us) ≡ true =
                      ground (arith, parse_tag-ok (trim inner), rest_ok) in
                    ground (arith, cut, text_token-ok before (u ∷ us) hb ok)
              ]
        ]
  ]

-- A run keeps such a property of the output if all substitutions have it.
module _ (p : ℕ → Bool) (ctx : Context) (escape : Option (Text → Text))
    (values : (v : Option Value) → all p (substitute escape v) ≡ true) where
  abbrev Good : Text → Type 0
  Good out = all p out ≡ true

  abbrev KeepsGood : Run → Type 0
  KeepsGood go =
      (ts : List Token) (out : Text) (emit : Bool) (stop : Stop) (rest : List Token) (out' : Text)
      → tokens_ok p ts ≡ true
      → Good out
      → go ts out emit ≡ some (stop, (rest, out'))
      → (tokens_ok p rest ≡ true) × Good out'

  emitted : (emit : Bool) (out t : Text) → Good out → Good t → Good (if emit then out ++ t else out)
  emitted true out t ho ht = all-append p out t ho ht
  emitted false out t ho ht = ho

  otherwise-KeepsGood : (go : Run) (stop : Stop) → KeepsGood go → KeepsGood (otherwise go stop)
  otherwise-KeepsGood go else_stop h ts out emit stop rest out' hts ho e =
      h ts out emit stop rest out' hts ho e
  otherwise-KeepsGood go eof h ts out emit stop rest out' hts ho e = ground (arith, hts, ho, e)
  otherwise-KeepsGood go end_stop h ts out emit stop rest out' hts ho e = ground (arith, hts, ho, e)

  branch-KeepsGood :
      (go : Run) (test : Bool)
      → KeepsGood go
      → KeepsGood (λ ts out emit. branch go ts out emit test)
  branch-KeepsGood go test h ts out emit stop rest out' hts ho e =
      let ((stop1, (ts1, out1)), e1, after) = >>=-eq-some (go ts out (emit && test)) _ e in
      let ((stop2, (ts2, out2)), e2, e3) =
        >>=-eq-some (otherwise go stop1 ts1 out1 (emit && not test)) _ after in
      let (h1, g1) = h ts out (emit && test) stop1 ts1 out1 hts ho e1 in
      let (h2, g2) =
        otherwise-KeepsGood go stop1 h ts1 out1 (emit && not test) stop2 ts2 out2 h1 g1 e2 in
      h ts2 out2 emit stop rest out' h2 g2 e3

  exec-KeepsGood : (f : ℕ) → KeepsGood (exec ctx escape f)
  unfolding exec
  exec-KeepsGood zero ts out emit stop rest out' hts ho e = cc
  exec-KeepsGood (suc f) [] out emit stop rest out' hts ho e = ground (arith, ho, e)
  exec-KeepsGood (suc f) (text t ∷ ts) out emit stop rest out' hts ho e =
      exec-KeepsGood f ts (if emit then out ++ t else out) emit stop rest out' (ground arith)
        (emitted emit out t ho (ground arith)) e
  exec-KeepsGood (suc f) (var name ∷ ts) out emit stop rest out' hts ho e =
      let s = substitute escape (get_var ctx name) in
      exec-KeepsGood f ts (if emit then out ++ s else out) emit stop rest out' hts
        (emitted emit out s ho (values (get_var ctx name))) e
  exec-KeepsGood (suc f) (if_ name ∷ ts) out emit stop rest out' hts ho e =
      branch-KeepsGood (exec ctx escape f) (truthy ctx name) (exec-KeepsGood f) ts out emit stop
        rest out' hts ho e
  exec-KeepsGood (suc f) (unless name ∷ ts) out emit stop rest out' hts ho e =
      branch-KeepsGood (exec ctx escape f) (not (truthy ctx name)) (exec-KeepsGood f) ts out emit
        stop rest out' hts ho e
  exec-KeepsGood (suc f) (else_ ∷ ts) out emit stop rest out' hts ho e = ground (arith, hts, ho, e)
  exec-KeepsGood (suc f) (end_if ∷ ts) out emit stop rest out' hts ho e = ground (arith, hts, ho, e)
  exec-KeepsGood (suc f) (end_unless ∷ ts) out emit stop rest out' hts ho e =
      ground (arith, hts, ho, e)

  abbrev AllGood : (List Token → Text → Option Text) → Type 0
  AllGood go =
      (ts : List Token) (out out' : Text)
      → tokens_ok p ts ≡ true
      → Good out
      → go ts out ≡ some out'
      → Good out'

  again-AllGood :
      (go : List Token → Text → Option Text) (stop : Stop)
      → AllGood go
      → AllGood (again ctx escape go stop)
  again-AllGood go eof h ts out out' hts ho e = ground (arith, ho, e)
  again-AllGood go else_stop h ts out out' hts ho e = h ts out out' hts ho e
  again-AllGood go end_stop h ts out out' hts ho e = h ts out out' hts ho e

  exec_all-AllGood : (f : ℕ) → AllGood (exec_all ctx escape f)
  unfolding exec_all
  exec_all-AllGood zero ts out out' hts ho e = cc
  exec_all-AllGood (suc f) [] out out' hts ho e = ground (arith, ho, e)
  exec_all-AllGood (suc f) (t ∷ ts) out out' hts ho e =
      let ((stop, (rest, out1)), e1, e2) =
        >>=-eq-some (exec ctx escape (suc f) (t ∷ ts) out true) _ e in
      let (h1, g1) = exec-KeepsGood (suc f) (t ∷ ts) out true stop rest out1 hts ho e1 in
      again-AllGood (exec_all ctx escape f) stop (exec_all-AllGood f) rest out1 out' h1 g1 e2

  pub render_with-Good :
      (template out : Text) → Good template → render_with ctx escape template ≡ some out → Good out
  unfolding render_with
  render_with-Good template out h e = elim (Bool-cases (is_some (split_pair b'{' template))) [
    | inl tagged ↦
        let (ts, cut, done) =
          >>=-eq-some (tokenize (suc (length template)) template) _ (rw tagged at e) in
        exec_all-AllGood (suc (length ts)) ts [] out
          (tokenize-ok p (suc (length template)) template ts h cut) refl done
    | inr plain ↦ let same : some template ≡ some out = rw plain at e in ground (arith, h, same)
  ]
