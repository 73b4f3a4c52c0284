-- ===== src/Outbox/Delivery.antt =====
-- What becomes of the rows of an outbox under its consumers and its expirer (drain.go, expirer.go).
use gitscale.Common.{
  Contains, ℕ, zero, suc, ◌≢◌, sym, ap, ◌∙◌, true, false, Option, none, some, List, [], ◌∷◌, map,
  take, All, All-append, inl, inr, Bool-cases, if_rule, ltb, arith,
}
use gitscale.Outbox.{OutboxRow, Table, ProducerOk, pending, World, sort_by, where_rows, any_id}
use gitscale.Outbox.Rows.{
  Ascending, Ascending-unique, Ascending-delete_ids, Contains-delete_ids, Contains-where_rows,
  Contains-sort_by, Contains-take, any_id-Contains, map-map_id,
}
use gitscale.Outbox.Drain.{Config}
use gitscale.Outbox.Expirer.{
  Answer, answer_rule, Expirer, Expired, is_expired, id_before, expire_batch, expire_loop, expire,
  affected,
}
use gitscale.Outbox.History.{
  Event, emit, drain, expire_rows, expire_once, table_of, step, emitted, run,
}
use gitscale.Outbox.Keeps.{
  Safe, Keeps, Keeps-refl, insert_rows-Keeps, insert_rows-Safe, All-map, drain_batch-Keeps,
}

module _ {L : Type 0} (cfg : Config L) (Delivered : L → OutboxRow → Type 0) where
  -- No row that waits is expired.
  expire_batch-pending :
      (now : ℕ) (e : Expirer) (t : Table) (hi : ℕ) (r : OutboxRow)
      → Ascending 0 t hi
      → Contains (pending r) t
      → Contains (pending r) (expire_batch now e t)
  unfolding expire_batch is_expired
  expire_batch-pending now e t hi r asc c =
      elim (Bool-cases (any_id (map (λ s. s.row.id) victims) r.id)) [
        | inl taken ↦
            let (s, in_victims, same) =
              any_id-Contains victims r.id
                (ap (λ ids. any_id ids r.id) (map-map_id victims) ∙ taken) in
            let (in_t, expired) =
              Contains-where_rows (is_expired now e.ttl) t
                (Contains-sort_by id_before _ (Contains-take e.batch_size _ in_victims)) in
            let found = Ascending-unique in_t c 0 hi asc same in
            absurd (false-ne-true (sym (ap (is_expired now e.ttl) found) ∙ expired))
        | inr other ↦ Contains-delete_ids (map (λ s. s.row.id) victims) c other
      ]
    where
      victims : Table
      victims = take e.batch_size (sort_by id_before (where_rows (is_expired now e.ttl) t))

      false-ne-true : false ≢ true
      false-ne-true = cc

  expire_batch-Ascending :
      (now : ℕ) (e : Expirer) (t : Table) (hi : ℕ)
      → Ascending 0 t hi
      → Ascending 0 (expire_batch now e t) hi
  unfolding expire_batch
  expire_batch-Ascending now e t hi asc = Ascending-delete_ids _ 0 t hi asc

  -- What each DELETE preserves holds of the table that the loop leaves.
  abbrev OfTable : (Table → Type 0) → Option Expired → Type 0
  OfTable Inv none = Unit
  OfTable Inv (some x) = Inv x.table

  OfTable-table_of :
      (Inv : Table → Type 0) (o : Option Expired) (t : Table)
      → Inv t
      → OfTable Inv o
      → Inv (table_of cfg o t)
  OfTable-table_of Inv none t h k = h
  OfTable-table_of Inv (some x) t h k = k

  expire_loop-OfTable :
      (Inv : Table → Type 0) (e : Expirer) (answers : ℕ → Answer)
      → ((now : ℕ) (t : Table) → Inv t → Inv (expire_batch now e t))
      → (f turn total : ℕ) (t : Table) → Inv t
      → OfTable Inv (expire_loop f e (λ turn t. t) answers turn total t)
  unfolding expire_loop
  expire_loop-OfTable Inv e answers each zero turn total t h = tt
  expire_loop-OfTable Inv e answers each (suc f) turn total t h =
      answer_rule (OfTable Inv) (answers turn) h
        (λ now.
          let h' = each now t h in
          if_rule (OfTable Inv) (ltb (affected t (expire_batch now e t)) e.batch_size) (λ _. h')
            λ _. expire_loop-OfTable Inv e answers each f (suc turn) _ (expire_batch now e t) h')
        (λ now. each now t h)

  expire-Keeps :
      (e : Expirer) (answers : ℕ → Answer) (w : World L)
      → Ascending 0 w.table w.next_id
      → Keeps cfg Delivered w (step cfg (expire_rows e answers) w)
  unfolding step
  expire-Keeps e answers w asc = record {
    ascends = kept.0;
    keeps = λ r h. elim h [ inl c ↦ inl (kept.1 r c) | inr l ↦ inr l ];
  }
    where
      Inv : Table → Type 0
      Inv t =
          Ascending 0 t w.next_id
          × ((r : OutboxRow) → Contains (pending r) w.table → Contains (pending r) t)

      each : (now : ℕ) (t : Table) → Inv t → Inv (expire_batch now e t)
      each now t h = (
        expire_batch-Ascending now e t w.next_id h.0,
        λ r c. expire_batch-pending now e t w.next_id r h.0 (h.1 r c),
      )

      kept : Inv (table_of cfg (expire e answers w.table) w.table)
      kept =
          OfTable-table_of Inv (expire e answers w.table) w.table (asc, λ r c. c)
            (expire_loop-OfTable Inv e answers each _ 0 0 w.table (asc, λ r c. c))

  expire_once-Keeps :
      (e : Expirer) (now : ℕ) (w : World L)
      → Ascending 0 w.table w.next_id
      → Keeps cfg Delivered w (step cfg (expire_once e now) w)
  unfolding step
  expire_once-Keeps e now w asc = record {
    ascends = expire_batch-Ascending now e w.table w.next_id asc;
    keeps = λ r h. elim h [
      | inl c ↦ inl (expire_batch-pending now e w.table w.next_id r asc c)
      | inr l ↦ inr l
    ];
  }

  module _ (ok : ProducerOk cfg.producer cfg.topic Delivered) where
    step-Keeps :
        (e : Event) (w : World L)
        → Ascending 0 w.table w.next_id
        → Keeps cfg Delivered w (step cfg e w)
    unfolding step
    step-Keeps (emit rs) w asc = insert_rows-Keeps cfg Delivered rs w asc
    step-Keeps (drain c) w asc =
        let inserted = insert_rows-Keeps cfg Delivered c.arrivals w asc in
        let drained = drain_batch-Keeps cfg Delivered ok c w asc in
        record { ascends = drained.ascends; keeps = λ r h. drained.keeps r (inserted.keeps r h) }
    step-Keeps (expire_rows e answers) w asc = expire-Keeps e answers w asc
    step-Keeps (expire_once e now) w asc = expire_once-Keeps e now w asc

    step-Safe :
        (e : Event) (w : World L)
        → Ascending 0 w.table w.next_id
        → All (Safe cfg Delivered (step cfg e w)) (emitted cfg e w)
    unfolding step
    step-Safe (emit rs) w asc = insert_rows-Safe cfg Delivered rs w asc
    step-Safe (drain c) w asc =
        All-map cfg Delivered (drain_batch-Keeps cfg Delivered ok c w asc).keeps _
          (insert_rows-Safe cfg Delivered c.arrivals w asc)
    step-Safe (expire_rows e answers) w asc = tt
    step-Safe (expire_once e now) w asc = tt

    run-Keeps :
        (es : List Event) (w : World L)
        → Ascending 0 w.table w.next_id
        → Keeps cfg Delivered w (run cfg es w).0
    unfolding run
    run-Keeps [] w asc = Keeps-refl cfg Delivered w asc
    run-Keeps (e ∷ es) w asc =
        let now_kept = step-Keeps e w asc in
        let later_kept = run-Keeps es (step cfg e w) now_kept.ascends in
        record {
          ascends = later_kept.ascends;
          keeps = λ r h. later_kept.keeps r (now_kept.keeps r h);
        }

    run_from-Safe :
        (es : List Event) (w : World L)
        → Ascending 0 w.table w.next_id
        → All (Safe cfg Delivered (run cfg es w).0) (run cfg es w).1
    unfolding run
    run_from-Safe [] w asc = tt
    run_from-Safe (e ∷ es) w asc =
        let asc' = (step-Keeps e w asc).ascends in
        All-append (Safe cfg Delivered (run cfg es (step cfg e w)).0) (emitted cfg e w)
          (run cfg es (step cfg e w)).1
          (All-map cfg Delivered (run-Keeps es (step cfg e w) asc').keeps _ (step-Safe e w asc))
          (run_from-Safe es (step cfg e w) asc')

-- No row is lost: whatever a database and a producer that keeps its word answer, each row that a
-- service has inserted, also while a cycle runs, waits unprocessed in the table, or it has been
-- delivered to the topic. Cycles fail at any statement, COMMITs go unheard, and expirers run between.
pub run-Safe :
    {L : Type 0} (cfg : Config L) (Delivered : L → OutboxRow → Type 0) (es : List Event) (l : L)
    → ProducerOk cfg.producer cfg.topic Delivered
    → let (w, inserted) = run cfg es (record { table = []; next_id = 1; log = l }) in
      All (Safe cfg Delivered w) inserted
run-Safe cfg Delivered es l ok = run_from-Safe cfg Delivered ok es _ (omega arith)
