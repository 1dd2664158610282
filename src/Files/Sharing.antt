-- ===== src/Files/Sharing.antt =====
-- src/services/attachments.rs: who sees an attached file, and what attaching may do.
use bbs_rs.Prelude.{
  ℕ, ◌<◌, ◌≡◌, refl, ap, ap₂, ◌∙◌, ◌⊎◌, inl, inr, Bool, true, false, ◌&&◌, ◌||◌, List, [], ◌∷◌,
  ◌++◌, Option, none, some, Text, any, ◌==◌, ==_iff, ltb, leb, find-In, Bool-cases, Option-cases,
  arith,
}
use bbs_rs.Error.{Result, ok, err, Result-cases}
use bbs_rs.Accounts.Tables.{User, is_guest}
use bbs_rs.Accounts.Admin.{select}
use bbs_rs.Limits.{Limits}
use bbs_rs.Boards.{Message}
use bbs_rs.Files.{FileArea, FileEntry, Link, Library}
use bbs_rs.Files.Attachments.{
  Attachment, in_area, area_of, join_area, file_of, joined, readable, for_message, for_mail,
  reads_area, reads_file, may_attach, is_link, count_of, may_link, precedes, insert_link,
  order_links, attach_to_message,
}

abbrev pub shows : ℕ → List Attachment → Bool
shows file_id rows = any (λ a. a.file.id == file_id) rows

module _ (role : Text) (lib : Library) (file_id : ℕ) where
  shows-append :
      (xs ys : List Attachment)
      → shows file_id (readable role (xs ++ ys))
        ≡ (shows file_id (readable role xs) || shows file_id (readable role ys))
  shows-append [] ys = refl
  shows-append (x ∷ xs) ys = let ih = shows-append xs ys in ground (arith, ih)

  shows-in_area :
      (f : FileEntry) (o : Option FileArea)
      → shows file_id (readable role (in_area f o)) ≡ (f.id == file_id && reads_area role o)
  shows-in_area f none = ground arith
  shows-in_area f (some a) = ground arith

  shows-row :
      (id : ℕ)
      → shows file_id (readable role (join_area lib (file_of lib id)))
        ≡ (id == file_id && reads_file role lib (file_of lib id))
  shows-row id = elim (Option-cases (file_of lib id)) [
    | inl missing ↦ rw missing (ground arith)
    | inr (f, found) ↦
        let (_, hit) = find-In (λ (g : FileEntry). g.id == id) lib.files found in
        let same : f.id ≡ id = (==_iff f.id id).0 hit in
        rw found (
          shows-in_area f (area_of lib f)
          ∙ ap (λ i. i == file_id && reads_area role (area_of lib f)) same)
  ]

  shows-joined :
      (ls : List Link)
      → shows file_id (readable role (joined lib ls))
        ≡ (any (λ l. l.file_id == file_id) ls && reads_file role lib (file_of lib file_id))
  shows-joined [] = refl
  shows-joined (l ∷ ls) =
      shows-append (join_area lib (file_of lib l.file_id)) (joined lib ls)
      ∙ ap₂ (λ x y. x || y) (shows-row l.file_id) (shows-joined ls)
      ∙ one_file l.file_id (any (λ k. k.file_id == file_id) ls)
    where
      one_file :
          (id : ℕ) (rest : Bool)
          → ((id == file_id && reads_file role lib (file_of lib id))
              || (rest && reads_file role lib (file_of lib file_id)))
            ≡ ((id == file_id || rest) && reads_file role lib (file_of lib file_id))
      one_file id rest = elim (Bool-cases (id == file_id)) [
        | inl hit ↦
            let same : id ≡ file_id = (==_iff id file_id).0 hit in
            rw same (either (file_id == file_id) rest (reads_file role lib (file_of lib file_id)))
        | inr miss ↦ rw miss refl
      ]
        where
          either : (a b r : Bool) → ((a && r) || (b && r)) ≡ ((a || b) && r)
          either true b true = refl
          either true true false = refl
          either true false false = refl
          either false b r = refl

any-select :
    (owner file_id : ℕ) (ls : List Link)
    → any (λ l. l.file_id == file_id) (select (λ l. l.owner == owner) ls)
      ≡ any (is_link owner file_id) ls
any-select owner file_id [] = refl
any-select owner file_id (l ∷ ls) = let ih = any-select owner file_id ls in ground (arith, ih)

any-insert_link :
    (p : Link → Bool) (l : Link) (ks : List Link) → any p (insert_link l ks) ≡ (p l || any p ks)
any-insert_link p l [] = refl
any-insert_link p l (k ∷ ks) = elim (Bool-cases (precedes l k)) [
  | inl before ↦ rw before refl
  | inr after ↦ let rest = any-insert_link p l ks in rw after (ground (arith, rest))
]

any-order_links : (p : Link → Bool) (ls : List Link) → any p (order_links ls) ≡ any p ls
any-order_links p [] = refl
any-order_links p (l ∷ ls) =
    any-insert_link p l (order_links ls) ∙ ap (λ b. p l || b) (any-order_links p ls)

-- A file shows under a message if and only if it is attached to it and the viewer may read the
-- area that it is in: attaching a file widens no one's access to it. The test is the one that lets
-- a user attach a file at all, and for mail it is the same.
pub for_message-shows :
    (viewer : User) (lib : Library) (owner file_id : ℕ)
    → (shows file_id (for_message owner viewer.role lib)
        ≡ (any (is_link owner file_id) lib.on_messages && may_attach file_id viewer lib))
      × (shows file_id (for_mail owner viewer.role lib)
          ≡ (any (is_link owner file_id) lib.on_mail && may_attach file_id viewer lib))
unfolding for_message for_mail may_attach
for_message-shows viewer lib owner file_id = (shown lib.on_messages, shown lib.on_mail)
  where
    shown :
        (ls : List Link)
        → shows file_id
            (readable viewer.role (joined lib (order_links (select (λ l. l.owner == owner) ls))))
          ≡ (any (is_link owner file_id) ls && reads_file viewer.role lib (file_of lib file_id))
    shown ls =
        shows-joined viewer.role lib file_id (order_links (select (λ l. l.owner == owner) ls))
        ∙ ap (λ b. b && reads_file viewer.role lib (file_of lib file_id))
            (any-order_links (λ l. l.file_id == file_id) (select (λ l. l.owner == owner) ls)
              ∙ any-select owner file_id ls)

-- What attaching may do to the links: be refused and change nothing, find the link there, or add it.
abbrev pub Attaches :
    ℕ → ℕ → User → Limits → ℕ → List Message → Library → Result (Unit {0}) × Library → Type 0
Attaches message_id file_id actor limits now messages lib (err e, lib') = lib' ≡ lib
Attaches message_id file_id actor limits now messages lib (ok _, lib') =
    (is_guest actor ≡ false)
    × (may_attach file_id actor lib ≡ true)
    × (any (λ m. m.id == message_id && m.author_id == actor.id) messages ≡ true)
    × ((limits.max_attachments ≡ 0)
        ⊎ (count_of message_id lib.on_messages < limits.max_attachments))
    × (((any (is_link message_id file_id) lib.on_messages ≡ true) × (lib' ≡ lib))
        ⊎ ((any (is_link message_id file_id) lib.on_messages ≡ false)
            × (lib' ≡ record lib {
              on_messages =
                  lib.on_messages
                  ++ record { owner = message_id; file_id = file_id; created_at = now } ∷ [];
            })))

may_link-ok :
    (owner file_id : ℕ) (actor : User) (limits : Limits) (lib : Library) (links : List Link)
    {t : Unit {0}}
    → may_link owner file_id actor limits lib links ≡ ok t
    → (is_guest actor ≡ false)
      × (may_attach file_id actor lib ≡ true)
      × ((limits.max_attachments ≡ 0) ⊎ (count_of owner links < limits.max_attachments))
may_link-ok owner file_id actor limits lib links e = elim (Bool-cases (is_guest actor)) [
  | inl guest ↦ cc (rw guest at e)
  | inr member ↦ elim (Bool-cases (may_attach file_id actor lib)) [
    | inr hidden ↦ cc (rw (member, hidden) at e)
    | inl may ↦
        elim (Bool-cases
          (ltb 0 limits.max_attachments && leb limits.max_attachments (count_of owner links))) [
            | inl full ↦ cc (rw (member, may, full) at e)
            | inr room ↦ (member, may, ground (arith, room))
          ]
  ]
]

-- Attaching to a message is refused and changes nothing, or the actor is no guest, may read the
-- file and wrote the message, the message has room, and it has the file once afterwards.
pub attach_to_message-Attaches :
    (message_id file_id : ℕ) (actor : User) (limits : Limits) (now : ℕ) (messages : List Message)
    (lib : Library)
    → Attaches message_id file_id actor limits now messages lib
        (attach_to_message message_id file_id actor limits now messages lib)
unfolding attach_to_message
attach_to_message-Attaches message_id file_id actor limits now messages lib =
    let own = any (λ m. m.id == message_id && m.author_id == actor.id) messages in
    elim (Result-cases (may_link message_id file_id actor limits lib lib.on_messages)) [
      | inl (e, bad) ↦ rw bad refl
      | inr (t, good) ↦
          let (member, may, room) =
            may_link-ok message_id file_id actor limits lib lib.on_messages good in
          elim (Bool-cases own) [
            | inr foreign ↦ rw (good, foreign) refl
            | inl mine ↦ elim (Bool-cases (any (is_link message_id file_id) lib.on_messages)) [
              | inl there ↦ rw (good, mine, there) (member, may, mine, room, inl (there, refl))
              | inr new ↦ rw (good, mine, new) (member, may, mine, room, inr (new, refl))
            ]
          ]
    ]
