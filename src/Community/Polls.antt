-- ===== src/Community/Polls.antt =====
-- src/services/polls.rs: the tables `polls`, `poll_options` and `poll_votes`. A transaction that
-- fails leaves them as they were.
pub mod Laws
use bbs_rs.Prelude.{
  ℕ, suc, ◌+◌, ◌≡◌, Bool, true, false, not, ◌&&◌, ◌||◌, List, [], ◌∷◌, ◌++◌, Option, none, some,
  map, take, length, Text, codes, text_eq, trim, if◌then◌else◌, ◌==◌, ltb, leb, is_some, find,
  delete_where, update_where, count_where,
}
use bbs_rs.Error.{
  AppError, guest_not_allowed, not_found, poll_invalid, poll_closed, Result, ok, err, ◌>>=◌, ◌>>◌,
}
use bbs_rs.Accounts.Tables.{User, is_guest, is_admin}
use bbs_rs.Accounts.Admin.{select}
use bbs_rs.Limits.{Limits, window_start, enforce_rate, enforce_len}

pub record PollRow : Type 0 where
  pub id : ℕ
  pub author_id : ℕ
  pub question : Text
  pub created_at : ℕ
  pub closed_at : Option ℕ

pub record OptionRow : Type 0 where
  pub id : ℕ
  pub poll_id : ℕ
  pub position : ℕ
  pub label : Text

pub record Vote : Type 0 where
  pub poll_id : ℕ
  pub option_id : ℕ
  pub user_id : ℕ
  pub created_at : ℕ

pub record Booth : Type 0 where
  pub polls : List PollRow
  pub next_poll : ℕ
  pub options : List OptionRow
  pub next_option : ℕ
  pub votes : List Vote

abbrev pub max_options : ℕ
max_options = 8

abbrev pub is_blank : Text → Bool
is_blank s = text_eq s []

abbrev pub usable : List Text → List Text
usable labels = take max_options (select (λ o. not (is_blank o)) (map trim labels))

abbrev pub enforce_each : List Text → ℕ → Result (Unit {0})
enforce_each [] max = ok tt
enforce_each (o ∷ os) max = enforce_len (codes "Option") o max >>= λ _. enforce_each os max

unfoldable pub recent_poll_count : ℕ → ℕ → List PollRow → ℕ
recent_poll_count author_id since polls =
    count_where (λ p. p.author_id == author_id && leb since p.created_at) polls

abbrev pub throttle : User → Limits → ℕ → List PollRow → Result (Unit {0})
throttle author limits now polls =
    if is_admin author then ok tt else elim (window_start limits now) [
      | none ↦ ok tt
      | some since ↦ enforce_rate (recent_poll_count author.id since polls) limits.max_posts
    ]

-- The option rows, ids and positions counting up.
abbrev pub option_rows : ℕ → ℕ → ℕ → List Text → List OptionRow
option_rows id poll_id position [] = []
option_rows id poll_id position (label ∷ labels) =
    record { id = id; poll_id = poll_id; position = position; label = label }
    ∷ option_rows (suc id) poll_id (suc position) labels

abbrev pub insert_poll : User → Text → List Text → ℕ → Booth → Result (Unit {0}) → Result ℕ × Booth
insert_poll author question opts now booth (err e) = (err e, booth)
insert_poll author question opts now booth (ok _) = (
  ok booth.next_poll,
  record booth {
    polls =
        booth.polls
        ++ record {
          id = booth.next_poll;
          author_id = author.id;
          question = question;
          created_at = now;
          closed_at = none;
        }
          ∷ [];
    next_poll = suc booth.next_poll;
    options = booth.options ++ option_rows booth.next_option booth.next_poll 0 opts;
    next_option = booth.next_option + length opts;
  },
)

-- What is checked between the shape of a poll and its rows.
abbrev pub checks : User → Text → List Text → Limits → ℕ → Booth → Result (Unit {0})
checks author question opts limits now booth = do
  enforce_len (codes "Question") question limits.max_subject_chars
  enforce_each opts limits.max_subject_chars
  throttle author limits now booth.polls

unfoldable pub create_poll : User → Text → List Text → Limits → ℕ → Booth → Result ℕ × Booth
create_poll author raw_question options limits now booth =
    let question = trim raw_question in
    let opts = usable options in
    if is_guest author
    then (err guest_not_allowed, booth)
    else if is_blank question || ltb (length opts) 2
    then (err poll_invalid, booth)
    else insert_poll author question opts now booth (checks author question opts limits now booth)

abbrev pub is_ballot : ℕ → ℕ → Vote → Bool
is_ballot poll_id user_id v = v.poll_id == poll_id && v.user_id == user_id

-- `INSERT … ON CONFLICT(poll_id, user_id) DO UPDATE`
abbrev pub upsert_vote : Vote → List Vote → List Vote
upsert_vote b [] = b ∷ []
upsert_vote b (v ∷ vs) =
    if is_ballot b.poll_id b.user_id v
    then record v { option_id = b.option_id; created_at = b.created_at } ∷ vs
    else v ∷ upsert_vote b vs

abbrev pub cast : ℕ → User → ℕ → ℕ → Booth → PollRow → Result (Unit {0}) × Booth
cast poll_id user option_id now booth poll =
    if is_some poll.closed_at
    then (err poll_closed, booth)
    else if not (is_some (find (λ o. o.id == option_id && o.poll_id == poll_id) booth.options))
    then (err not_found, booth)
    else (
      ok tt,
      record booth {
        votes =
            upsert_vote
              (record {
                poll_id = poll_id;
                option_id = option_id;
                user_id = user.id;
                created_at = now;
              })
              booth.votes;
      },
    )

unfoldable pub vote : ℕ → User → ℕ → ℕ → Booth → Result (Unit {0}) × Booth
vote poll_id user option_id now booth =
    if is_guest user
    then (err guest_not_allowed, booth)
    else elim (find (λ p. p.id == poll_id) booth.polls) [
      | none ↦ (err not_found, booth)
      | some poll ↦ cast poll_id user option_id now booth poll
    ]

abbrev pub is_open : ℕ → PollRow → Bool
is_open poll_id p = p.id == poll_id && not (is_some p.closed_at)

unfoldable pub close_poll : ℕ → ℕ → Booth → Bool × Booth
close_poll poll_id now booth = (
  ltb 0 (count_where (is_open poll_id) booth.polls),
  record booth {
    polls = update_where (is_open poll_id) (λ p. record p { closed_at = some now }) booth.polls;
  },
)

pub author_of : ℕ → Booth → Option ℕ
author_of poll_id booth = elim (find (λ p. p.id == poll_id) booth.polls) [
  | none ↦ none
  | some p ↦ some p.author_id
]

unfoldable pub delete_poll : ℕ → Booth → Bool × Booth
delete_poll poll_id booth = (
  ltb 0 (count_where (λ p. p.id == poll_id) booth.polls),
  record booth {
    votes = delete_where (λ v. v.poll_id == poll_id) booth.votes;
    options = delete_where (λ o. o.poll_id == poll_id) booth.options;
    polls = delete_where (λ p. p.id == poll_id) booth.polls;
  },
)

-- Of `get_poll`: the options with their tallies (rows stand in the order of their positions),
-- the total, and the viewer's own vote.
unfoldable pub tallies : ℕ → Booth → List (OptionRow × ℕ)
tallies poll_id booth =
    map (λ o. (o, count_where (λ v. v.option_id == o.id) booth.votes))
      (select (λ o. o.poll_id == poll_id) booth.options)

abbrev pub sum_votes : List (OptionRow × ℕ) → ℕ
sum_votes [] = 0
sum_votes ((_, n) ∷ rest) = n + sum_votes rest

unfoldable pub total_votes : ℕ → Booth → ℕ
total_votes poll_id booth = sum_votes (tallies poll_id booth)

abbrev pub choice : Option Vote → Option ℕ
choice none = none
choice (some v) = some v.option_id

unfoldable pub my_vote : ℕ → ℕ → Booth → Option ℕ
my_vote poll_id user_id booth = choice (find (is_ballot poll_id user_id) booth.votes)
