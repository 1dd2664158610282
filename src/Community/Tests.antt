-- ===== src/Community/Tests.antt =====
-- Runs of polls, reactions and blocks with one member and one operator.
use bbs_rs.Prelude.{
  ℕ, ◌≤◌, ◌≡◌, refl, true, false, List, [], ◌∷◌, none, some, arith, Text, codes, ◌==◌, count_where,
}
use bbs_rs.Error.{AppError, err}
use bbs_rs.Accounts.Tables.{User}
use bbs_rs.Limits.{Limits}
use bbs_rs.Community.Reactions.{Row, is_valid_kind, toggle}
use bbs_rs.Community.Reactions.Laws.{Toggles, toggle-Toggles}
use bbs_rs.Community.Blocks.{UserBlock}
use bbs_rs.Community.Oneliners.{Wall}
use bbs_rs.Community.Polls.{OptionRow, Booth, create_poll, vote, close_poll}
use bbs_rs.Community.Polls.Laws.Voting.{Votes, vote-Votes, close_poll-vote}
use bbs_rs.Community.Polls.Laws.Creation.{Creates, create_poll-Creates}

abbrev with_id : ℕ → Text → Text → User
with_id id username role = record {
  id = id;
  username = username;
  password_hash = [];
  role = role;
  created_at = 0;
  banned_at = none;
  validated_at = some 0;
  is_remote = false;
  password_reset_at = none;
}

abbrev member : User
member = with_id 2 (codes "ann") (codes "user")

abbrev operator : User
operator = with_id 1 (codes "sysop") (codes "admin")

abbrev other_member : User
other_member = with_id 3 (codes "bob") (codes "user")

abbrev limits : Limits
limits = record {
  window_secs = 60;
  max_posts = 5;
  max_mail = 10;
  max_oneliners = 8;
  max_reactions = 30;
  daily_minutes = 0;
  max_attachments = 4;
  max_subject_chars = 120;
  max_body_chars = 8000;
}

abbrev love : Row
love = record { message_id = 7; user_id = 2; kind = codes "love"; created_at = 50 }

love_known : is_valid_kind (codes "love") ≡ true
unfolding is_valid_kind
love_known = refl

toggle-Toggles_example :
    Toggles 7 member (codes "up") [] (toggle 7 member (codes "up") limits 100 [])
toggle-Toggles_example =
    toggle-Toggles 7 member (codes "up") limits 100 [] ((λ m u k. omega arith), tt)

abbrev one_block : List UserBlock
one_block = record { blocker_id = 2; blocked_id = 3; created_at = 9 } ∷ []

abbrev booth : Booth
booth = record {
  polls =
      record { id = 1; author_id = 1; question = codes "Tea?"; created_at = 5; closed_at = none }
      ∷ [];
  next_poll = 2;
  options =
      record { id = 1; poll_id = 1; position = 0; label = codes "yes" }
      ∷ record { id = 2; poll_id = 1; position = 1; label = codes "no" }
      ∷ [];
  next_option = 3;
  votes = record { poll_id = 1; option_id = 2; user_id = 3; created_at = 6 } ∷ [];
}

vote-Votes_example : Votes 1 member 2 booth (vote 1 member 2 9 booth)
vote-Votes_example = vote-Votes 1 member 2 9 booth (omega arith)

close_poll-vote_example :
    let booth' = (close_poll 1 8 booth).1 in
    (e : AppError) × (vote 1 member 2 9 booth' ≡ (err e, booth'))
close_poll-vote_example = close_poll-vote 1 8 9 2 member booth

create_poll-Creates_example :
    Creates member (codes " Cake? ") (codes "yes" ∷ codes " " ∷ codes "no" ∷ []) booth (
      create_poll member
        (codes " Cake? ")
        (codes "yes" ∷ codes " " ∷ codes "no" ∷ [])
        limits
        9
        booth)
create_poll-Creates_example =
    create_poll-Creates member (codes " Cake? ") (codes "yes" ∷ codes " " ∷ codes "no" ∷ []) limits
      9 booth ((omega arith, tt), (omega arith, (omega arith, tt)))

one_each : (i : ℕ) → count_where (λ (o : OptionRow). o.id == i) booth.options ≤ 1
one_each i = ground arith

abbrev wall : Wall
wall = record {
  rows = record { id = 1; author_id = 2; body = codes "hi"; created_at = 90 } ∷ [];
  next_id = 2;
}
