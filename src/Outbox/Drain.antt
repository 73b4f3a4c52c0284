-- ===== src/Outbox/Drain.antt =====
-- One cycle of the outbox consumer (drain.go), a transaction whose statements may fail. The advisory
-- lock keeps other consumers out of it; services insert rows while it runs.
use gitscale.Common.{
  ℕ, Bool, true, false, ◌||◌, ◌&&◌, not, Option, none, some, List, [], ◌∷◌, map, take, length, ltb,
  ◌==◌, if◌then◌else◌,
}
use gitscale.Common.Str.{Str}
use gitscale.Outbox.{
  OutboxRow, Stored, Table, KafkaProducer, World, sort_by, where_rows, any_id, insert_rows,
}

pub data DrainResult : Type 0 where
  ok lock_missed empty publish_error update_error : DrainResult

-- What becomes of COMMIT: it may fail, and it may fail to be heard of.
pub data CommitOutcome : Type 0 where
  committed commit_failed commit_unheard : CommitOutcome

-- What the database does in one cycle. `lock` is `none` where the query fails, and `arrivals` are the
-- rows whose transactions commit while it runs, after the SELECT if there is one.
pub record Cycle : Type 0 where
  pub begins : Bool
  pub lock : Option Bool
  pub selects : Bool
  pub arrivals : List OutboxRow
  pub updates : Bool
  pub commit : CommitOutcome
  pub now : ℕ

pub record Config (L : Type 0) : Type 0 where
  pub topic : Str
  pub producer : KafkaProducer L
  pub batch_size : ℕ

unfoldable pub is_unprocessed : Stored → Bool
is_unprocessed s = elim s.processed_at [ none ↦ true | some t ↦ false ]

-- `ORDER BY created_at, id`
abbrev pub created_before : Stored → Stored → Bool
created_before a b =
    ltb a.row.created_at b.row.created_at
    || (a.row.created_at == b.row.created_at && ltb a.row.id b.row.id)

unfoldable pub select_batch : ℕ → Table → List OutboxRow
select_batch limit t =
    map (λ s. s.row) (take limit (sort_by created_before (where_rows is_unprocessed t)))

-- `UPDATE … SET processed_at = now() WHERE id = ANY(ids)`
unfoldable pub mark_processed : ℕ → List ℕ → Table → Table
mark_processed now ids [] = []
mark_processed now ids (s ∷ t) =
    (if any_id ids s.row.id then record s { processed_at = some now } else s)
    ∷ mark_processed now ids t

module _ {L : Type 0} (cfg : Config L) where
  -- After a batch is published: the UPDATE and the COMMIT.
  unfoldable pub mark_batch : Cycle → List OutboxRow → World L → World L × DrainResult × ℕ
  mark_batch c batch w =
      let marked = record w { table = mark_processed c.now (map (λ r. r.id) batch) w.table } in
      if not c.updates then (w, update_error, 0) else elim c.commit [
        | committed ↦
            (marked, ok, length (where_rows (λ s. any_id (map (λ r. r.id) batch) s.row.id) w.table))
        | commit_failed ↦ (w, update_error, 0)
        | commit_unheard ↦ (marked, update_error, 0)
      ]

  -- After the SELECT.
  unfoldable pub publish_selected : Cycle → List OutboxRow → World L → World L × DrainResult × ℕ
  publish_selected c [] w = (w, empty, 0)
  publish_selected c (r ∷ rs) w =
      let (log, acknowledged) = cfg.producer.publish_batch cfg.topic (r ∷ rs) w.log in
      let w' = record w { log = log } in
      if acknowledged then mark_batch c (r ∷ rs) w' else (w', publish_error, 0)

  -- The gauge of the oldest row is left out.
  unfoldable pub drain_batch : Cycle → World L → World L × DrainResult × ℕ
  drain_batch c w =
      let w' = insert_rows c.arrivals w in
      if not c.begins then (w', publish_error, 0) else elim c.lock [
        | none ↦ (w', publish_error, 0)
        | some false ↦ (w', lock_missed, 0)
        | some true ↦
            (if c.selects
              then publish_selected c (select_batch cfg.batch_size w.table) w'
              else (w', publish_error, 0))
      ]
