-- ===== src/Community/Polls/Laws/Voting.antt =====
-- Who may vote in src/services/polls.rs, and what a vote changes.
use bbs_rs.Prelude.{
  ℕ, ◌+◌, ◌≤◌, ◌≡◌, refl, ap, ◌∙◌, inl, inr, true, false, ◌&&◌, List, [], ◌∷◌, some, if◌then◌else◌,
  ◌==◌, ==_iff, is_some, find, update_where, count_where, In, find-In, Bool-cases, Option-cases,
  arith,
}
use bbs_rs.Error.{AppError, guest_not_allowed, not_found, poll_closed, Result, ok, err}
use bbs_rs.Accounts.Tables.{User, is_guest}
use bbs_rs.Community.Polls.{
  PollRow, OptionRow, Vote, Booth, is_ballot, upsert_vote, cast, vote, is_open, close_poll, choice,
  my_vote,
}

abbrev pub ballots : ℕ → ℕ → Booth → ℕ
ballots poll_id user_id booth = count_where (is_ballot poll_id user_id) booth.votes

-- The rows say that the poll is open and that the option is one of its own.
abbrev pub MayChoose : ℕ → ℕ → Booth → Type 0
MayChoose poll_id option_id booth =
    ((p : PollRow) × In p booth.polls × (p.id ≡ poll_id) × (is_some p.closed_at ≡ false))
    × ((o : OptionRow) × In o booth.options × (o.id ≡ option_id) × (o.poll_id ≡ poll_id))

-- What a vote may do: be refused and change nothing, or leave the user exactly one vote in the
-- poll, for the option, and every other user and poll as they were.
abbrev pub Votes : ℕ → User → ℕ → Booth → Result (Unit {0}) × Booth → Type 0
Votes poll_id user option_id booth (err e, booth') = booth' ≡ booth
Votes poll_id user option_id booth (ok _, booth') =
    (is_guest user ≡ false)
    × MayChoose poll_id option_id booth
    × (ballots poll_id user.id booth' ≡ 1)
    × (my_vote poll_id user.id booth' ≡ some option_id)
    × ((p u : ℕ)
        → ¬ ((p ≡ poll_id) × (u ≡ user.id))
        → (ballots p u booth' ≡ ballots p u booth) × (my_vote p u booth' ≡ my_vote p u booth))

count-upsert_vote :
    (b : Vote) (vs : List Vote)
    → count_where (is_ballot b.poll_id b.user_id) vs ≤ 1
    → count_where (is_ballot b.poll_id b.user_id) (upsert_vote b vs) ≡ 1
count-upsert_vote b [] h =
    rw ((==_iff b.poll_id b.poll_id).1 refl, (==_iff b.user_id b.user_id).1 refl) refl
count-upsert_vote b (v ∷ vs) h = elim (Bool-cases (is_ballot b.poll_id b.user_id v)) [
  | inl mine ↦ rw (mine, mine) (ground arith)
  | inr other ↦
      let ih = count-upsert_vote b vs (ground arith) in rw (other, other) (omega (arith, ih))
]

find-upsert_vote :
    (b : Vote) (vs : List Vote)
    → (w : Vote) × (find (is_ballot b.poll_id b.user_id) (upsert_vote b vs) ≡ some w)
      × (w.option_id ≡ b.option_id)
find-upsert_vote b [] =
    (b, rw ((==_iff b.poll_id b.poll_id).1 refl, (==_iff b.user_id b.user_id).1 refl) refl, refl)
find-upsert_vote b (v ∷ vs) = elim (Bool-cases (is_ballot b.poll_id b.user_id v)) [
  | inl mine ↦
      (record v { option_id = b.option_id; created_at = b.created_at }, rw (mine, mine) refl, refl)
  | inr other ↦ let (w, found, same) = find-upsert_vote b vs in (w, rw (other, other) found, same)
]

is_ballot_apart :
    (p u q w : ℕ)
    → ¬ ((p ≡ q) × (u ≡ w))
    → (v : Vote) → is_ballot q w v ≡ true
    → is_ballot p u v ≡ false
is_ballot_apart p u q w apart v h = elim (Bool-cases (is_ballot p u v)) [
  | inr other ↦ other
  | inl same ↦ absurd (apart (ground arith, ground arith))
]

upsert_vote_apart :
    (b : Vote) (p u : ℕ)
    → ¬ ((p ≡ b.poll_id) × (u ≡ b.user_id))
    → (vs : List Vote)
    → (count_where (is_ballot p u) (upsert_vote b vs) ≡ count_where (is_ballot p u) vs)
      × (find (is_ballot p u) (upsert_vote b vs) ≡ find (is_ballot p u) vs)
upsert_vote_apart b p u apart [] =
    let mine : is_ballot b.poll_id b.user_id b ≡ true =
      rw ((==_iff b.poll_id b.poll_id).1 refl, (==_iff b.user_id b.user_id).1 refl) refl in
    let other = is_ballot_apart p u b.poll_id b.user_id apart b mine in
    (rw other refl, rw other refl)
upsert_vote_apart b p u apart (v ∷ vs) = elim (Bool-cases (is_ballot b.poll_id b.user_id v)) [
  | inl mine ↦
      let other = is_ballot_apart p u b.poll_id b.user_id apart v mine in
      (rw (mine, other) refl, rw (mine, other) refl)
  | inr kept ↦
      let (c, f) = upsert_vote_apart b p u apart vs in
      (
        rw kept (ap (λ n. (if is_ballot p u v then 1 else 0) + n) c),
        rw kept (ap (λ o. if is_ballot p u v then some v else o) f),
      )
]

cast-Votes :
    (poll_id : ℕ) (user : User) (option_id now : ℕ) (booth : Booth) (p : PollRow)
    → is_guest user ≡ false
    → In p booth.polls
    → p.id ≡ poll_id
    → ballots poll_id user.id booth ≤ 1
    → Votes poll_id user option_id booth (cast poll_id user option_id now booth p)
unfolding my_vote
cast-Votes poll_id user option_id now booth p member i same once =
    elim (Bool-cases (is_some p.closed_at)) [
      | inl closed ↦ rw closed refl
      | inr open_ ↦
          elim (Option-cases
            (find (λ (o : OptionRow). o.id == option_id && o.poll_id == poll_id) booth.options)) [
              | inl forged ↦ rw (open_, forged) refl
              | inr (o, found) ↦
                  let b : Vote = record {
                    poll_id = poll_id;
                    option_id = option_id;
                    user_id = user.id;
                    created_at = now;
                  } in
                  let (j, q) =
                    find-In (λ (o : OptionRow). o.id == option_id && o.poll_id == poll_id)
                      booth.options found in
                  let (w, here, chosen) = find-upsert_vote b booth.votes in
                  rw (open_, found)
                    (
                      member,
                      ((p, i, same, open_), (o, j, ground arith, ground arith)),
                      count-upsert_vote b booth.votes once,
                      ap choice here ∙ ap (λ (n : ℕ). some n) chosen,
                      λ r u apart.
                          let (c, f) = upsert_vote_apart b r u apart booth.votes in
                          (c, ap choice f),
                    )
            ]
    ]

-- Where a user has at most one vote in the poll, a vote either is refused and changes nothing,
-- or the user is no guest, the poll is open and has the option, and then the user has exactly
-- one vote there, for that option, and no other vote has changed.
pub vote-Votes :
    (poll_id : ℕ) (user : User) (option_id now : ℕ) (booth : Booth)
    → ballots poll_id user.id booth ≤ 1
    → Votes poll_id user option_id booth (vote poll_id user option_id now booth)
unfolding vote
vote-Votes poll_id user option_id now booth once = elim (Bool-cases (is_guest user)) [
  | inl guest ↦ rw guest refl
  | inr member ↦ elim (Option-cases (find (λ (p : PollRow). p.id == poll_id) booth.polls)) [
    | inl missing ↦ rw (member, missing) refl
    | inr (p, found) ↦
        let (i, q) = find-In (λ (p : PollRow). p.id == poll_id) booth.polls found in
        rw (member, found)
          (cast-Votes poll_id user option_id now booth p member i ((==_iff p.id poll_id).0 q) once)
  ]
]

find-closed :
    (poll_id now : ℕ) (ps : List PollRow) {p : PollRow}
    → find
        (λ (q : PollRow). q.id == poll_id)
        (update_where (is_open poll_id) (λ q. record q { closed_at = some now }) ps)
      ≡ some p
    → is_some p.closed_at ≡ true
find-closed poll_id now [] e = cc
find-closed poll_id now (q ∷ ps) {p} e = elim (Bool-cases (q.id == poll_id)) [
  | inr other ↦ find-closed poll_id now ps (rw (other, other) at e)
  | inl asked ↦ elim (Bool-cases (is_some q.closed_at)) [
    | inl closed ↦ let same : q ≡ p = cc (rw (asked, closed, asked) at e) in rw (← same) closed
    | inr open_ ↦
        let same : record q { closed_at = some now } ≡ p = cc (rw (asked, open_, asked) at e) in
        rw (← same) refl
  ]
]

-- Once a poll is closed, every vote in it is refused and changes nothing.
pub close_poll-vote :
    (poll_id now later option_id : ℕ) (user : User) (booth : Booth)
    → let booth' = (close_poll poll_id now booth).1 in
      (e : AppError) × (vote poll_id user option_id later booth' ≡ (err e, booth'))
unfolding close_poll vote
close_poll-vote poll_id now later option_id user booth = elim (Bool-cases (is_guest user)) [
  | inl guest ↦ (guest_not_allowed, rw guest refl)
  | inr member ↦
      elim (Option-cases (
        find (λ (p : PollRow). p.id == poll_id)
          (update_where (is_open poll_id) (λ q. record q { closed_at = some now }) booth.polls))) [
            | inl missing ↦ (not_found, rw (member, missing) refl)
            | inr (p, found) ↦
                (poll_closed, rw (member, found, find-closed poll_id now booth.polls found) refl)
          ]
]
