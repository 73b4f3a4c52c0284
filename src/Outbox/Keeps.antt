-- ===== src/Outbox/Keeps.antt =====
-- Rows under one cycle of the consumer (drain.go).
use mathlib.Core.Path.{subst}
use gitscale.Common.{
  Contains, Contains-append, Contains-append_last, ℕ, Bool, true, false, not, Option, none, some,
  List, [], ◌∷◌, map, take, All, ◌⊎◌, inl, inr, Bool-cases, if_rule, if◌then◌else◌,
}
use gitscale.Outbox.{
  OutboxRow, Stored, Table, ProducerOk, pending, World, sort_by, where_rows, any_id, insert_row,
  insert_rows, numbered,
}
use gitscale.Outbox.Rows.{
  Ascending, Ascending-append, Ascending-unique, Ascending-mark_processed, Contains-mark_processed,
  Contains-where_rows, Contains-sort_by, Contains-take, any_id-Contains, All-Contains,
}
use gitscale.Outbox.Drain
use gitscale.Outbox.Drain.{
  CommitOutcome, Config, Cycle, DrainResult, is_unprocessed, created_before, select_batch,
  mark_processed, mark_batch, publish_selected, drain_batch, committed, commit_failed,
  commit_unheard,
}

module _ {L : Type 0} (cfg : Config L) (Delivered : L → OutboxRow → Type 0) where
  -- The row waits in the table, or it is delivered.
  abbrev pub Safe : World L → OutboxRow → Type 0
  Safe w r = Contains (pending r) w.table ⊎ Delivered w.log r

  -- A step from `w` to `w'` loses no row.
  pub record Keeps (w w' : World L) : Type 0 where
    pub ascends : Ascending 0 w'.table w'.next_id
    pub keeps : (r : OutboxRow) → Safe w r → Safe w' r

  pub Keeps-refl : (w : World L) → Ascending 0 w.table w.next_id → Keeps w w
  Keeps-refl w asc = record { ascends = asc; keeps = λ r h. h }

  pub insert_rows-Keeps :
      (rs : List OutboxRow) (w : World L)
      → Ascending 0 w.table w.next_id
      → Keeps w (insert_rows rs w)
  unfolding insert_rows insert_row
  insert_rows-Keeps [] w asc = Keeps-refl w asc
  insert_rows-Keeps (r ∷ rs) w asc =
      let rest =
        insert_rows-Keeps rs (insert_row r w)
          (Ascending-append 0 w.table (pending (record r { id = w.next_id })) asc) in
      record {
        ascends = rest.ascends;
        keeps = λ q h. rest.keeps q (elim h [ inl c ↦ inl (Contains-append _ c) | inr l ↦ inr l ]);
      }

  pub insert_rows-Safe :
      (rs : List OutboxRow) (w : World L)
      → Ascending 0 w.table w.next_id
      → All (Safe (insert_rows rs w)) (numbered w.next_id rs)
  unfolding insert_rows insert_row
  insert_rows-Safe [] w asc = tt
  insert_rows-Safe (r ∷ rs) w asc =
      let numbered_r = record r { id = w.next_id } in
      let asc' = Ascending-append 0 w.table (pending numbered_r) asc in
      (
        (insert_rows-Keeps rs (insert_row r w) asc').keeps numbered_r
            (inl (Contains-append_last (pending numbered_r) w.table)),
        insert_rows-Safe rs (insert_row r w) asc',
      )

  mark-Keeps :
      (now : ℕ) (batch : Table) (w : World L)
      → Ascending 0 w.table w.next_id
      → ((s : Stored) → Contains s batch → Contains s w.table)
      → All (Delivered w.log) (map (λ s. s.row) batch)
      → Keeps w (record w {
        table = mark_processed now (map (λ r. r.id) (map (λ s. s.row) batch)) w.table;
      })
  mark-Keeps now batch w asc sub delivered = record {
    ascends = Ascending-mark_processed now ids 0 w.table w.next_id asc;
    keeps = keeps;
  }
    where
      ids : List ℕ
      ids = map (λ r. r.id) (map (λ s. s.row) batch)

      keeps :
          (r : OutboxRow) → Safe w r → Safe (record w { table = mark_processed now ids w.table }) r
      keeps r (inr l) = inr l
      keeps r (inl c) = elim (Bool-cases (any_id ids r.id)) [
        | inl marked ↦
            let (s, in_batch, same) = any_id-Contains batch r.id marked in
            let found = Ascending-unique (sub s in_batch) c 0 w.next_id asc same in
            inr (
              subst (λ u. Delivered w.log u.row) found
                (All-Contains (Delivered w.log) in_batch delivered))
        | inr other ↦ inl (Contains-mark_processed now ids c other)
      ]

  pub All-map :
      {P Q : OutboxRow → Type 0}
      → ((r : OutboxRow) → P r → Q r)
      → (rs : List OutboxRow) → All P rs
      → All Q rs
  All-map f [] a = tt
  All-map f (r ∷ rs) a = (f r a.0, All-map f rs a.1)

  module _ (ok : ProducerOk cfg.producer cfg.topic Delivered) where
    mark_batch-Keeps :
        (c : Cycle) (batch : Table) (w : World L)
        → Ascending 0 w.table w.next_id
        → ((s : Stored) → Contains s batch → Contains s w.table)
        → All (Delivered w.log) (map (λ s. s.row) batch)
        → Keeps w (mark_batch cfg c (map (λ s. s.row) batch) w).0
    unfolding mark_batch
    mark_batch-Keeps c batch w asc sub delivered =
        if_rule (λ (r : World L × DrainResult × ℕ). Keeps w r.0) (not c.updates)
          (λ _. Keeps-refl w asc) (λ _. by_commit c.commit _)
      where
        marked : World L
        marked = record w {
          table = mark_processed c.now (map (λ r. r.id) (map (λ s. s.row) batch)) w.table;
        }

        by_commit :
            (o : CommitOutcome) (n : ℕ)
            → Keeps w
                (elim o as (λ _. World L × DrainResult × ℕ) [
                  | committed ↦ (marked, Drain.ok, n)
                  | commit_failed ↦ (w, Drain.update_error, 0)
                  | commit_unheard ↦ (marked, Drain.update_error, 0)
                ]).0
        by_commit committed n = mark-Keeps c.now batch w asc sub delivered
        by_commit commit_failed n = Keeps-refl w asc
        by_commit commit_unheard n = mark-Keeps c.now batch w asc sub delivered

    publish_selected-Keeps :
        (c : Cycle) (batch : Table) (w : World L)
        → Ascending 0 w.table w.next_id
        → ((s : Stored) → Contains s batch → Contains s w.table)
        → Keeps w (publish_selected cfg c (map (λ s. s.row) batch) w).0
    unfolding publish_selected
    publish_selected-Keeps c [] w asc sub = Keeps-refl w asc
    publish_selected-Keeps c (s ∷ batch) w asc sub =
        if_rule (λ (r : World L × DrainResult × ℕ). Keeps w r.0) published.1
          (λ acknowledged.
            let marked =
              mark_batch-Keeps c (s ∷ batch) w' asc sub (ok.acknowledged rows w.log acknowledged) in
            record { ascends = marked.ascends; keeps = λ r h. marked.keeps r (logged.keeps r h) })
          (λ _. logged)
      where
        rows : List OutboxRow
        rows = map (λ s. s.row) (s ∷ batch)

        published : L × Bool
        published = cfg.producer.publish_batch cfg.topic rows w.log

        w' : World L
        w' = record w { log = published.0 }

        logged : Keeps w w'
        logged = record {
          ascends = asc;
          keeps = λ r h. elim h [ inl c ↦ inl c | inr l ↦ inr (ok.keeps rows w.log r l) ];
        }

    Contains-insert_rows :
        (rs : List OutboxRow) (w : World L) {s : Stored}
        → Contains s w.table
        → Contains s (insert_rows rs w).table
    unfolding insert_rows insert_row
    Contains-insert_rows [] w c = c
    Contains-insert_rows (r ∷ rs) w c =
        Contains-insert_rows rs (insert_row r w) (Contains-append _ c)

    pub drain_batch-Keeps :
        (c : Cycle) (w : World L)
        → Ascending 0 w.table w.next_id
        → Keeps (insert_rows c.arrivals w) (drain_batch cfg c w).0
    unfolding drain_batch select_batch
    drain_batch-Keeps c w asc = if_rule P (not c.begins) (λ _. idle) λ _. by_lock c.lock
      where
        w' : World L
        w' = insert_rows c.arrivals w

        P : World L × DrainResult × ℕ → Type 0
        P r = Keeps w' r.0

        after : Ascending 0 w'.table w'.next_id
        after = (insert_rows-Keeps c.arrivals w asc).ascends

        idle : Keeps w' w'
        idle = Keeps-refl w' after

        chosen : Table
        chosen = take cfg.batch_size (sort_by created_before (where_rows is_unprocessed w.table))

        sub : (s : Stored) → Contains s chosen → Contains s w'.table
        sub s c' =
            Contains-insert_rows c.arrivals w
              (Contains-where_rows is_unprocessed w.table
                (Contains-sort_by created_before _ (Contains-take cfg.batch_size _ c'))).0

        by_lock :
            (lock : Option Bool)
            → P (elim lock as (λ _. World L × DrainResult × ℕ) [
              | none ↦ (w', Drain.publish_error, 0)
              | some false ↦ (w', Drain.lock_missed, 0)
              | some true ↦
                  (if c.selects
                    then publish_selected cfg c (map (λ s. s.row) chosen) w'
                    else (w', Drain.publish_error, 0))
            ])
        by_lock none = idle
        by_lock (some false) = idle
        by_lock (some true) =
            if_rule P c.selects (λ _. publish_selected-Keeps c chosen w' after sub) (λ _. idle)
