-- ===== src/Community/Polls/Laws/Tallies.antt =====
-- How the tallies that `get_poll` of src/services/polls.rs shows add up.
use bbs_rs.Prelude.{
  ℕ, ◌+◌, ◌≤◌, ◌<◌, ◌≡◌, ◌≢◌, refl, inl, inr, false, ◌&&◌, List, [], ◌∷◌, map, ◌==◌, ==_iff,
  count_where, All, Bool-cases, arith,
}
use bbs_rs.Accounts.Admin.{select}
use bbs_rs.Community.Polls.{OptionRow, Vote, Booth, tallies, sum_votes, total_votes}

-- Options have their own ids, and each vote's option is one of its poll's.
abbrev pub IsBooth : Booth → Type 0
IsBooth booth =
    ((i : ℕ) → count_where (λ (o : OptionRow). o.id == i) booth.options ≤ 1)
    × All
        (λ (v : Vote).
          0
          < count_where (λ (o : OptionRow). o.id == v.option_id && o.poll_id == v.poll_id)
              booth.options)
        booth.votes

-- The options of the poll that a vote counts for.
abbrev hits : ℕ → Vote → List OptionRow → ℕ
hits poll_id v os = count_where (λ o. v.option_id == o.id) (select (λ o. o.poll_id == poll_id) os)

two_polls :
    (i p q : ℕ)
    → p ≢ q
    → (os : List OptionRow)
    → count_where (λ (o : OptionRow). o.id == i && o.poll_id == p) os
        + count_where (λ (o : OptionRow). o.id == i && o.poll_id == q) os
      ≤ count_where (λ (o : OptionRow). o.id == i) os
two_polls i p q apart [] = omega arith
two_polls i p q apart (o ∷ os) =
    let ih = two_polls i p q apart os in
    elim (Bool-cases (o.poll_id == p)) [
      | inl here ↦
          let there : (o.poll_id == q) ≡ false = ground arith in rw (here, there) (ground arith)
      | inr other ↦ rw other (ground arith)
    ]

narrower :
    (i p : ℕ) (os : List OptionRow)
    → count_where (λ (o : OptionRow). o.id == i && o.poll_id == p) os
      ≤ count_where (λ (o : OptionRow). o.id == i) os
narrower i p [] = omega arith
narrower i p (o ∷ os) = let ih = narrower i p os in ground arith

hits-eq :
    (poll_id : ℕ) (v : Vote) (os : List OptionRow)
    → hits poll_id v os
      ≡ count_where (λ (o : OptionRow). o.id == v.option_id && o.poll_id == poll_id) os
hits-eq poll_id v [] = refl
hits-eq poll_id v (o ∷ os) =
    let ih = hits-eq poll_id v os in
    elim (Bool-cases (o.poll_id == poll_id)) [
      | inl here ↦ rw here (ground arith)
      | inr other ↦ rw other (ground arith)
    ]

abbrev tally : List Vote → OptionRow → OptionRow × ℕ
tally vs o = (o, count_where (λ v. v.option_id == o.id) vs)

tally-cons :
    (v : Vote) (vs : List Vote) (os : List OptionRow)
    → sum_votes (map (tally (v ∷ vs)) os)
      ≡ count_where (λ o. v.option_id == o.id) os + sum_votes (map (tally vs) os)
tally-cons v vs [] = refl
tally-cons v vs (o ∷ os) = let ih = tally-cons v vs os in omega arith

tally-nil : (os : List OptionRow) → sum_votes (map (tally []) os) ≡ 0
tally-nil [] = refl
tally-nil (o ∷ os) = omega (arith, tally-nil os)

-- The total that a poll shows is the number of votes cast in it.
pub total_votes-ballots :
    (poll_id : ℕ) (booth : Booth)
    → IsBooth booth
    → total_votes poll_id booth ≡ count_where (λ (v : Vote). v.poll_id == poll_id) booth.votes
unfolding total_votes tallies
total_votes-ballots poll_id booth (own_ids, belong) = adds_up booth.votes belong
  where
    os : List OptionRow
    os = booth.options

    adds_up :
        (vs : List Vote)
        → All
            (λ (v : Vote).
              0 < count_where (λ (o : OptionRow). o.id == v.option_id && o.poll_id == v.poll_id) os)
            vs
        → sum_votes (map (tally vs) (select (λ o. o.poll_id == poll_id) os))
          ≡ count_where (λ (v : Vote). v.poll_id == poll_id) vs
    adds_up [] h = tally-nil (select (λ o. o.poll_id == poll_id) os)
    adds_up (v ∷ vs) (here, rest) =
        let ih = adds_up vs rest in
        let step = tally-cons v vs (select (λ o. o.poll_id == poll_id) os) in
        let one = hits-eq poll_id v os in
        let most = own_ids v.option_id in
        elim (Bool-cases (v.poll_id == poll_id)) [
          | inl same ↦
              let same_id : v.poll_id ≡ poll_id = (==_iff v.poll_id poll_id).0 same in
              let there = rw same_id at here in
              rw same (omega (arith, narrower v.option_id poll_id os))
          | inr other ↦
              rw other
                (omega (arith, two_polls v.option_id v.poll_id poll_id (λ e. ground arith) os))
        ]
