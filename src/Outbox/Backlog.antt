-- ===== src/Outbox/Backlog.antt =====
-- The progress of the consumer (drain.go).
use gitscale.Common.{
  ℕ, zero, suc, ◌≤◌, ◌<◌, ◌≡◌, refl, true, some, List, [], ◌∷◌, map, take, length, All, Contains,
  here, there, if_rule, ℕ_discrete, arith,
}
use gitscale.Outbox.{
  OutboxRow, Stored, Table, World, sort_by, insert_by, where_rows, any_id, insert_rows,
}
use gitscale.Outbox.Rows.{Contains-where_rows, Contains-sort_by, Contains-take}
use gitscale.Outbox.Drain.{
  Config, Cycle, is_unprocessed, created_before, select_batch, mark_processed, mark_batch,
  publish_selected, drain_batch, committed,
}
use gitscale.Outbox.History.{drain, step, run}

-- A cycle that has the lock and in which no statement fails and no row arrives.
pub record Undisturbed (c : Cycle) : Type 0 where
  pub begins : c.begins ≡ true
  pub lock : c.lock ≡ some true
  pub selects : c.selects ≡ true
  pub arrivals : c.arrivals ≡ []
  pub updates : c.updates ≡ true
  pub commit : c.commit ≡ committed

-- The rows that wait.
unfoldable pub backlog : Table → ℕ
backlog t = length (where_rows is_unprocessed t)

mark_processed-backlog_le :
    (now : ℕ) (ids : List ℕ) (t : Table) → backlog (mark_processed now ids t) ≤ backlog t
unfolding mark_processed backlog where_rows is_unprocessed
mark_processed-backlog_le now ids [] = omega arith
mark_processed-backlog_le now ids (s ∷ t) = ground (arith, mark_processed-backlog_le now ids t)

mark_processed-backlog_lt :
    (now : ℕ) (ids : List ℕ) {s : Stored} {t : Table}
    → Contains s t
    → is_unprocessed s ≡ true
    → any_id ids s.row.id ≡ true
    → backlog (mark_processed now ids t) < backlog t
unfolding mark_processed backlog where_rows is_unprocessed
mark_processed-backlog_lt now ids {s} (here {xs = t}) waits found =
    ground (arith, mark_processed-backlog_le now ids t)
mark_processed-backlog_lt now ids (there {y = u} {xs = t} c) waits found =
    ground (arith, mark_processed-backlog_lt now ids c waits found)

-- A batch has a row if there is one to select.
inserted-take :
    (n : ℕ) (s : Stored) (t : Table)
    → (u : Stored) × (rest : Table) × (take (suc n) (insert_by created_before s t) ≡ u ∷ rest)
unfolding insert_by
inserted-take n s [] = (s, _, refl)
inserted-take n s (v ∷ t) =
    if_rule (λ (x : Table). (u : Stored) × (rest : Table) × (take (suc n) x ≡ u ∷ rest))
      (created_before v s) (λ _. (v, _, refl)) (λ _. (s, _, refl))

sorted-take :
    (n : ℕ) (t : Table)
    → 1 ≤ n
    → 1 ≤ length t
    → (s : Stored) × (rest : Table) × (take n (sort_by created_before t) ≡ s ∷ rest)
unfolding sort_by
sorted-take zero t k h = absurd (omega arith)
sorted-take (suc n) [] k h = absurd (omega arith)
sorted-take (suc n) (s ∷ t) k h = inserted-take n s (sort_by created_before t)

any_id-first : (i : ℕ) (ids : List ℕ) → any_id (i ∷ ids) i ≡ true
unfolding any_id
any_id-first i ids = ground arith

module _ {L : Type 0} (cfg : Config L) where
  drain_batch-backlog :
      (c : Cycle) (w : World L)
      → Undisturbed c
      → 1 ≤ cfg.batch_size
      → ((batch : List OutboxRow) (l : L) → (cfg.producer.publish_batch cfg.topic batch l).1 ≡ true)
      → 1 ≤ backlog w.table
      → backlog (drain_batch cfg c w).0.table < backlog w.table
  unfolding drain_batch publish_selected mark_batch select_batch insert_rows backlog
  drain_batch-backlog c w calm bound acks some_wait =
      let (s, rest, batch) =
        sorted-take cfg.batch_size (where_rows is_unprocessed w.table) bound some_wait in
      let first_of : Contains s
          (take cfg.batch_size (sort_by created_before (where_rows is_unprocessed w.table))) =
        rw (batch) here in
      let (in_table, waits) =
        Contains-where_rows is_unprocessed w.table
          (Contains-sort_by created_before _ (Contains-take cfg.batch_size _ first_of)) in
      rw
        (
          calm.begins,
          calm.lock,
          calm.selects,
          calm.arrivals,
          batch,
          acks (s.row ∷ map (λ s. s.row) rest) w.log,
          calm.updates,
          calm.commit,
        )
        (mark_processed-backlog_lt c.now _ in_table waits (any_id-first s.row.id _))

  drain_batch-idle :
      (c : Cycle) (w : World L)
      → Undisturbed c
      → backlog w.table ≡ 0
      → backlog (drain_batch cfg c w).0.table ≡ 0
  unfolding drain_batch publish_selected select_batch insert_rows backlog sort_by
  drain_batch-idle c w calm none_wait =
      rw
        (
          calm.begins,
          calm.lock,
          calm.selects,
          calm.arrivals,
          length_zero (where_rows is_unprocessed w.table) none_wait,
          take_empty cfg.batch_size,
        )
        none_wait
    where
      length_zero : (t : Table) → length t ≡ 0 → t ≡ []
      length_zero [] e = refl
      length_zero (s ∷ t) e = absurd (omega (arith, e))

      take_empty : (n : ℕ) → take {A = Stored} n [] ≡ []
      take_empty zero = refl
      take_empty (suc n) = refl

  -- The backlog is worked off: with a producer that acknowledges, as many undisturbed cycles as rows
  -- wait leave none that waits, whatever the batch size, as long as it is not 0.
  pub drains-backlog :
      (cs : List Cycle) (w : World L)
      → All Undisturbed cs
      → 1 ≤ cfg.batch_size
      → ((batch : List OutboxRow) (l : L) → (cfg.producer.publish_batch cfg.topic batch l).1 ≡ true)
      → backlog w.table ≤ length cs
      → backlog (run cfg (map drain cs) w).0.table ≡ 0
  unfolding run step
  drains-backlog [] w calm bound acks h = omega (arith, h)
  drains-backlog (c ∷ cs) w calm bound acks h =
      drains-backlog cs (drain_batch cfg c w).0 calm.1 bound acks
        (elim (ℕ_discrete (backlog w.table) 0) [
          | yes none_wait ↦ omega (arith, drain_batch-idle c w calm.0 none_wait)
          | no some_wait ↦
              omega (arith, h, drain_batch-backlog c w calm.0 bound acks (omega (arith, some_wait)))
        ])
