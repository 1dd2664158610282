-- ===== src/Accounts/Laws/Broadcasts.antt =====
-- What the sweeper reads of the broadcasts of src/services/admin.rs.
use bbs_rs.Prelude.{
  ℕ, ◌≤◌, ◌<◌, ◌≡◌, refl, sym, ap, ◌∙◌, inl, inr, Bool-cases, append-nil, List, [], ◌∷◌, ◌++◌,
  append_assoc, map, Text, ltb, lt→ltb, le→not-ltb, All, arith,
}
use bbs_rs.Accounts.Admin.{select}
use bbs_rs.Accounts.Broadcasts.{
  Broadcast, Outbox, queue_broadcast, max_id, latest_broadcast_id, broadcasts_after,
}

-- The ids in use are below the next one.
abbrev pub IsOutbox : Outbox → Type 0
IsOutbox box = (0 < box.next_id) × All (λ (b : Broadcast). b.id < box.next_id) box.rows

-- Broadcasts queued one after another, each at its time.
abbrev pub queue_all : List (ℕ × Text) → Outbox → Outbox
queue_all [] box = box
queue_all ((now, text) ∷ rest) box = queue_all rest (queue_broadcast now text box).1

-- The texts of the broadcasts past a mark.
abbrev pub texts : ℕ → List Broadcast → List Text
texts mark rows =
    map (λ (r : ℕ × Text). r.1)
      (map (λ (b : Broadcast). (b.id, b.text)) (select (λ b. ltb mark b.id) rows))

texts-append :
    (mark : ℕ) (xs : List Broadcast) (b : Broadcast)
    → mark < b.id
    → texts mark (xs ++ b ∷ []) ≡ texts mark xs ++ b.text ∷ []
texts-append mark [] b h = rw (lt→ltb mark b.id h) refl
texts-append mark (x ∷ xs) b h = elim (Bool-cases (ltb mark x.id)) [
  | inl hit ↦ rw hit (ap (λ r. x.text ∷ r) (texts-append mark xs b h))
  | inr miss ↦ rw miss (texts-append mark xs b h)
]

-- What a read past `mark` gives grows by what is queued, in order.
after-queue_all :
    (mark : ℕ) (items : List (ℕ × Text)) (box : Outbox)
    → mark < box.next_id
    → map (λ (r : ℕ × Text). r.1) (broadcasts_after mark (queue_all items box))
      ≡ map (λ (r : ℕ × Text). r.1) (broadcasts_after mark box) ++ map (λ (r : ℕ × Text). r.1) items
unfolding broadcasts_after queue_broadcast
after-queue_all mark [] box h = sym (append-nil _)
after-queue_all mark ((now, text) ∷ rest) box h =
    after-queue_all mark rest (queue_broadcast now text box).1 (omega arith)
    ∙ ap (λ l. l ++ map (λ (r : ℕ × Text). r.1) rest) one_more
    ∙ append_assoc (map (λ (r : ℕ × Text). r.1) (broadcasts_after mark box)) (text ∷ []) _
  where
    row : Broadcast
    row = record { id = box.next_id; text = text; created_at = now }

    one_more :
        map (λ (r : ℕ × Text). r.1) (broadcasts_after mark (queue_broadcast now text box).1)
        ≡ map (λ (r : ℕ × Text). r.1) (broadcasts_after mark box) ++ text ∷ []
    one_more = texts-append mark box.rows row h

all_seen : (mark : ℕ) (xs : List Broadcast) → max_id xs ≤ mark → texts mark xs ≡ []
all_seen mark [] h = refl
all_seen mark (x ∷ xs) h = rw (le→not-ltb mark x.id (omega arith)) (all_seen mark xs (omega arith))

max_id_below :
    (n : ℕ) (xs : List Broadcast) → 0 < n → All (λ (b : Broadcast). b.id < n) xs → max_id xs < n
max_id_below n [] h k = h
max_id_below n (x ∷ xs) h (lt, rest) = omega (arith, max_id_below n xs h rest)

-- A sweeper that starts with the latest id and reads past it is given exactly what is queued
-- after it started, in order: no broadcast from before is sent again and none is lost.
pub broadcasts_after-queue_all :
    (box : Outbox) (items : List (ℕ × Text))
    → IsOutbox box
    → map (λ (r : ℕ × Text). r.1) (broadcasts_after (latest_broadcast_id box) (queue_all items box))
      ≡ map (λ (r : ℕ × Text). r.1) items
unfolding broadcasts_after latest_broadcast_id
broadcasts_after-queue_all box items (some_id, below) =
    after-queue_all (max_id box.rows) items box (max_id_below box.next_id box.rows some_id below)
    ∙ ap (λ l. l ++ map (λ (r : ℕ × Text). r.1) items)
        (all_seen (max_id box.rows) box.rows (omega arith))
