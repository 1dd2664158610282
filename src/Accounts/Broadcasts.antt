-- ===== src/Accounts/Broadcasts.antt =====
-- The sysop broadcasts of src/services/admin.rs: a queue that the server's sweeper reads past its
-- high-water mark. Ids count up, as the table's AUTOINCREMENT has it.
use bbs_rs.Prelude.{ℕ, suc, max, List, [], ◌∷◌, ◌++◌, map, Text, ltb}
use bbs_rs.Accounts.Admin.{select}

pub record Broadcast : Type 0 where
  pub id : ℕ
  pub text : Text
  pub created_at : ℕ

pub record Outbox : Type 0 where
  pub rows : List Broadcast
  pub next_id : ℕ

unfoldable pub queue_broadcast : ℕ → Text → Outbox → ℕ × Outbox
queue_broadcast now text box = (
  box.next_id,
  record {
    rows = box.rows ++ record { id = box.next_id; text = text; created_at = now } ∷ [];
    next_id = suc box.next_id;
  },
)

-- `COALESCE(MAX(id), 0)`
abbrev pub max_id : List Broadcast → ℕ
max_id [] = 0
max_id (b ∷ bs) = max b.id (max_id bs)

unfoldable pub latest_broadcast_id : Outbox → ℕ
latest_broadcast_id box = max_id box.rows

unfoldable pub broadcasts_after : ℕ → Outbox → List (ℕ × Text)
broadcasts_after after_id box =
    map (λ (b : Broadcast). (b.id, b.text)) (select (λ b. ltb after_id b.id) box.rows)
