-- ===== src/Outbox.antt =====
-- The transactional outbox (plane/data/outbox): the rows that services leave beside their own writes,
-- the topic they are published to, and the consumer's configuration. A table lists its rows in the
-- order of their ids, which come from a sequence.
pub mod Drain
pub mod Expirer
pub mod Rows
pub mod History
mod Keeps
pub mod Delivery
pub mod Backlog
pub mod Expiry
pub mod Mock
mod Tests
use gitscale.Common.{
  ℕ, suc, ◌+◌, ◌≡◌, Bool, true, false, ◌||◌, ◌&&◌, Option, none, some, List, [], ◌∷◌, ◌++◌, All,
  ltb, ◌==◌, if◌then◌else◌,
}
use gitscale.Common.Str.{Str, Str_eq, codes}

pub record OutboxRow : Type 0 where
  pub id : ℕ
  pub event_id : ℕ
  pub aggregate_type : Str
  pub aggregate_id : ℕ
  pub event_type : Str
  pub payload : Str
  pub created_at : ℕ

-- A row of the table, with its column processed_at, NULL at first.
pub record Stored : Type 0 where
  pub row : OutboxRow
  pub processed_at : Option ℕ

abbrev pub pending : OutboxRow → Stored
pending r = record { row = r; processed_at = none }

abbrev pub Table : Type 0
Table = List Stored

-- A producer's state `L` and its call: the state after it, and whether every event was acknowledged.
pub record KafkaProducer (L : Type 0) : Type 0 where
  pub publish_batch : Str → List OutboxRow → L → L × Bool

-- What producer.go documents: an acknowledged batch is delivered as a whole, whereas a failed call
-- may have delivered a part; and nothing is taken back.
pub record ProducerOk {L : Type 0} (p : KafkaProducer L) (topic : Str)
    (Delivered : L → OutboxRow → Type 0) : Type 0 where
  pub keeps :
      (batch : List OutboxRow) (l : L) (r : OutboxRow)
      → Delivered l r
      → Delivered (p.publish_batch topic batch l).0 r
  pub acknowledged :
      (batch : List OutboxRow) (l : L)
      → (p.publish_batch topic batch l).1 ≡ true
      → All (Delivered (p.publish_batch topic batch l).0) batch

-- ORDER BY: `before` is the order of the columns named.
module _ {A : Type 0} (before : A → A → Bool) where
  unfoldable pub insert_by : A → List A → List A
  insert_by a [] = a ∷ []
  insert_by a (b ∷ bs) = let rest = insert_by a bs in if before b a then b ∷ rest else a ∷ b ∷ bs

  unfoldable pub sort_by : List A → List A
  sort_by [] = []
  sort_by (a ∷ bs) = insert_by a (sort_by bs)

-- WHERE
unfoldable pub where_rows : (Stored → Bool) → Table → Table
where_rows p [] = []
where_rows p (s ∷ t) = let rest = where_rows p t in if p s then s ∷ rest else rest

-- `id = ANY(ids)`
unfoldable pub any_id : List ℕ → ℕ → Bool
any_id [] i = false
any_id (j ∷ ids) i = j == i || any_id ids i

-- What the consumers of a domain share with its services. `next_id` is the sequence of the column id.
pub record World (L : Type 0) : Type 0 where
  pub table : Table
  pub next_id : ℕ
  pub log : L

-- A service's INSERT, as its transaction commits.
unfoldable pub insert_row : {L : Type 0} → OutboxRow → World L → World L
insert_row r w = record w {
  table = w.table ++ pending (record r { id = w.next_id }) ∷ [];
  next_id = suc w.next_id;
}

unfoldable pub insert_rows : {L : Type 0} → List OutboxRow → World L → World L
insert_rows [] w = w
insert_rows (r ∷ rs) w = insert_rows rs (insert_row r w)

-- The rows as they are inserted: with the ids from `n` on.
abbrev pub numbered : ℕ → List OutboxRow → List OutboxRow
numbered n [] = []
numbered n (r ∷ rs) = record r { id = n } ∷ numbered (suc n) rs
