-- ===== src/Community/Polls/Laws/Creation.antt =====
-- What `create_poll` and `delete_poll` of src/services/polls.rs write.
use bbs_rs.Prelude.{
  ℕ, zero, suc, ◌≤◌, ◌<◌, ◌≡◌, ◌≢◌, refl, ap, inl, inr, false, not, ◌||◌, List, [], ◌∷◌, ◌++◌, none,
  some, map, take, length, Text, trim, ◌==◌, ==_iff, ltb, find, All-append, find-append_none, All,
  Bool-cases, arith,
}
use bbs_rs.Error.{Result, ok, err, Result-cases}
use bbs_rs.Accounts.Tables.{User, is_guest}
use bbs_rs.Accounts.Admin.{select}
use bbs_rs.Limits.{Limits}
use bbs_rs.Community.Polls.{
  PollRow, OptionRow, Booth, max_options, is_blank, usable, option_rows, checks, create_poll,
}

abbrev pub labels_of : ℕ → Booth → List Text
labels_of poll_id booth =
    map (λ (o : OptionRow). o.label) (select (λ o. o.poll_id == poll_id) booth.options)

-- Ids of polls are handed out in order.
abbrev pub IsFresh : Booth → Type 0
IsFresh booth =
    All (λ (p : PollRow). p.id < booth.next_poll) booth.polls
    × All (λ (o : OptionRow). o.poll_id < booth.next_poll) booth.options

-- What a creation may do: be refused and change nothing, or add an open poll with the trimmed
-- question and, in their order, the two to eight options that are usable.
abbrev pub Creates : User → Text → List Text → Booth → Result ℕ × Booth → Type 0
Creates author question options booth (err e, booth') = booth' ≡ booth
Creates author question options booth (ok id, booth') =
    (is_guest author ≡ false)
    × (trim question ≢ [])
    × (2 ≤ length (labels_of id booth'))
    × (length (labels_of id booth') ≤ 8)
    × All (λ label. label ≢ []) (labels_of id booth')
    × (labels_of id booth' ≡ usable options)
    × ((p : PollRow) × (find (λ q. q.id == id) booth'.polls ≡ some p)
        × (p.question ≡ trim question)
        × (p.author_id ≡ author.id)
        × (p.closed_at ≡ none))
    × IsFresh booth'

select-append_rows :
    (p : ℕ) (os : List OptionRow) (id position : ℕ) (labels : List Text)
    → All (λ (o : OptionRow). o.poll_id < p) os
    → map
        (λ (o : OptionRow). o.label)
        (select (λ o. o.poll_id == p) (os ++ option_rows id p position labels))
      ≡ labels
select-append_rows p [] id position [] h = refl
select-append_rows p [] id position (l ∷ ls) h =
    rw ((==_iff p p).1 refl)
      (ap (λ r. l ∷ r) (select-append_rows p [] (suc id) (suc position) ls tt))
select-append_rows p (o ∷ os) id position ls (lt, rest) =
    let other : (o.poll_id == p) ≡ false = ground arith in
    rw other (select-append_rows p os id position ls rest)

find-none_of_fresh :
    (p : ℕ) (ps : List PollRow)
    → All (λ (q : PollRow). q.id < p) ps
    → find (λ (q : PollRow). q.id == p) ps ≡ none
find-none_of_fresh p [] h = refl
find-none_of_fresh p (q ∷ ps) (lt, rest) =
    let other : (q.id == p) ≡ false = ground arith in rw other (find-none_of_fresh p ps rest)

length-take_le {ℓ} : {A : Type ℓ} (n : ℕ) (xs : List A) → length (take n xs) ≤ n
length-take_le zero xs = omega arith
length-take_le (suc n) [] = omega arith
length-take_le (suc n) (x ∷ xs) = omega (arith, length-take_le n xs)

All-select : (xs : List Text) → All (λ label. label ≢ []) (select (λ o. not (is_blank o)) xs)
All-select [] = tt
All-select (x ∷ xs) = elim (Bool-cases (is_blank x)) [
  | inl blank ↦ rw blank (All-select xs)
  | inr full ↦ rw full ((λ e. cc (rw e at full)), All-select xs)
]

All-take {ℓ κ} : {A : Type ℓ} (P : A → Type κ) (n : ℕ) (xs : List A) → All P xs → All P (take n xs)
All-take P zero xs h = tt
All-take P (suc n) [] h = tt
All-take P (suc n) (x ∷ xs) (here, rest) = (here, All-take P n xs rest)

All-weaken {ℓ} :
    {A : Type ℓ} (f : A → ℕ) (n : ℕ) (xs : List A)
    → All (λ x. f x < n) xs
    → All (λ x. f x < suc n) xs
All-weaken f n [] h = tt
All-weaken f n (x ∷ xs) (lt, rest) = (omega arith, All-weaken f n xs rest)

All-option_rows :
    (id p position : ℕ) (labels : List Text)
    → All (λ (o : OptionRow). o.poll_id < suc p) (option_rows id p position labels)
All-option_rows id p position [] = tt
All-option_rows id p position (l ∷ ls) = (omega arith, All-option_rows (suc id) p (suc position) ls)

-- On tables whose ids are handed out in order, a creation either is refused and changes nothing,
-- or the author is no guest and the answer is the id of a new open poll with the trimmed question
-- and exactly the usable options: two to eight, none of them blank.
pub create_poll-Creates :
    (author : User) (question : Text) (options : List Text) (limits : Limits) (now : ℕ)
    (booth : Booth)
    → IsFresh booth
    → Creates author question options booth (create_poll author question options limits now booth)
unfolding create_poll
create_poll-Creates author question options limits now booth (polls_below, options_below) =
    elim (Bool-cases (is_guest author)) [
      | inl guest ↦ rw guest refl
      | inr member ↦
          elim (Bool-cases (is_blank (trim question) || ltb (length (usable options)) 2)) [
            | inl invalid ↦ rw (member, invalid) refl
            | inr valid ↦
                elim (Result-cases
                  (checks author (trim question) (usable options) limits now booth)) [
                    | inl (e, bad) ↦ rw (member, valid, bad) refl
                    | inr (_, good) ↦
                        let labels =
                          select-append_rows booth.next_poll booth.options booth.next_option 0
                            (usable options) options_below in
                        let asked : trim question ≢ [] = λ e. cc (rw e at valid) in
                        let row : PollRow = record {
                          id = booth.next_poll;
                          author_id = author.id;
                          question = trim question;
                          created_at = now;
                          closed_at = none;
                        } in
                        let here =
                          find-append_none (λ (q : PollRow). q.id == booth.next_poll) booth.polls
                            row (find-none_of_fresh booth.next_poll booth.polls polls_below)
                            ((==_iff booth.next_poll booth.next_poll).1 refl) in
                        let two : 2 ≤ length (usable options) = ground arith in
                        rw (member, valid, good)
                          (
                            member,
                            asked,
                            rw labels two,
                            rw labels (
                                length-take_le max_options
                                  (select (λ o. not (is_blank o)) (map trim options))),
                            rw labels (
                                All-take (λ label. label ≢ []) max_options
                                  (select (λ o. not (is_blank o)) (map trim options))
                                  (All-select (map trim options))),
                            labels,
                            (row, here, refl, refl, refl),
                            (fresh_polls row refl, fresh_options),
                          )
                  ]
          ]
    ]
  where
    fresh_polls :
        (row : PollRow)
        → row.id ≡ booth.next_poll
        → All (λ (p : PollRow). p.id < suc booth.next_poll) (booth.polls ++ row ∷ [])
    fresh_polls row e =
        All-append (λ (p : PollRow). p.id < suc booth.next_poll) booth.polls (row ∷ [])
          (All-weaken (λ (p : PollRow). p.id) booth.next_poll booth.polls polls_below)
          (omega arith, tt)

    fresh_options :
        All
          (λ (o : OptionRow). o.poll_id < suc booth.next_poll)
          (booth.options ++ option_rows booth.next_option booth.next_poll 0 (usable options))
    fresh_options =
        All-append (λ (o : OptionRow). o.poll_id < suc booth.next_poll) booth.options
          (option_rows booth.next_option booth.next_poll 0 (usable options))
          (All-weaken (λ (o : OptionRow). o.poll_id) booth.next_poll booth.options options_below)
          (All-option_rows booth.next_option booth.next_poll 0 (usable options))
