-- ===== src/Outbox/History.antt =====
-- Histories of an outbox (drain.go, expirer.go).
use gitscale.Common.{ℕ, Option, none, some, List, [], ◌∷◌, ◌++◌}
use gitscale.Outbox.{OutboxRow, Table, World, insert_rows, numbered}
use gitscale.Outbox.Drain.{Config, Cycle, drain_batch}
use gitscale.Outbox.Expirer.{Answer, Expirer, Expired, expire, expire_batch}

-- What happens to one domain's outbox: services insert rows, a consumer runs a cycle, or the expirer
-- runs, by itself with what becomes of its DELETEs, or in single DELETEs with other events between.
pub data Event : Type 0 where
  emit : List OutboxRow → Event
  drain : Cycle → Event
  expire_rows : Expirer → (ℕ → Answer) → Event
  expire_once : Expirer → ℕ → Event

module _ {L : Type 0} (cfg : Config L) where
  abbrev pub table_of : Option Expired → Table → Table
  table_of none t = t
  table_of (some e) t = e.table

  unfoldable pub step : Event → World L → World L
  step (emit rs) w = insert_rows rs w
  step (drain c) w = (drain_batch cfg c w).0
  step (expire_rows e answers) w = record w { table = table_of (expire e answers w.table) w.table }
  step (expire_once e now) w = record w { table = expire_batch now e w.table }

  -- The rows that are inserted by an event.
  abbrev pub emitted : Event → World L → List OutboxRow
  emitted (emit rs) w = numbered w.next_id rs
  emitted (drain c) w = numbered w.next_id c.arrivals
  emitted (expire_rows e answers) w = []
  emitted (expire_once e now) w = []

  unfoldable pub run : List Event → World L → World L × List OutboxRow
  run [] w = (w, [])
  run (e ∷ es) w = let (w', rest) = run es (step e w) in (w', emitted e w ++ rest)
