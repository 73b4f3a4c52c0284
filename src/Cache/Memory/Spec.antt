-- ===== src/Cache/Memory/Spec.antt =====
-- The abstract view of MemoryStore (store_memory.go): a table of values with deadlines that never
-- evicts.
use gitscale.Common.{
  ℕ, ◌+◌, ◌≡◌, refl, sym, ap, ◌∙◌, ite, Bool, true, false, Option, none, some, List, [], ◌∷◌, map,
  arith, if◌then◌else◌,
}
use gitscale.Common.Map.{lookup-insert, lookup-delete}
use gitscale.Common.Str.{Str, Str-discrete, Str_eq}
use gitscale.Cache.{Got, found, not_found}
use gitscale.Cache.Memory.{
  MemEntry, MemoryStore, advance, unexpired, fresh, evict, store_entry, memory_get, memory_mget,
  memory_set, memory_delete, value_or_nil, memory_compare_and_swap,
}

pub data Op : Type 0 where
  reads : Str → Op
  reads_many : List Str → Op
  writes : Str → Str → ℕ → Op
  removes : Str → Op
  swaps : Str → Str → Str → ℕ → Op
  waits : ℕ → Op

pub data Answer : Type 0 where
  got : Got → Answer
  slots : Option (List (Option Str)) → Answer
  done : Bool → Answer
  swapped : Option Bool → Answer

unfoldable pub exec : MemoryStore → Op → MemoryStore × Answer
exec s (reads k) = ((memory_get s k).0, got (memory_get s k).1)
exec s (reads_many ks) = ((memory_mget s ks).0, slots (memory_mget s ks).1)
exec s (writes k v ttl) = ((memory_set s k v ttl).0, done (memory_set s k v ttl).1)
exec s (removes k) = ((memory_delete s k).0, done (memory_delete s k).1)
exec s (swaps k e r ttl) =
    ((memory_compare_and_swap s k e r ttl).0, swapped (memory_compare_and_swap s k e r ttl).1)
exec s (waits d) = (advance d s, done true)

unfoldable pub answers : MemoryStore → List Op → List Answer
answers s [] = []
answers s (o ∷ os) = (exec s o).1 ∷ answers (exec s o).0 os

-- The table: for each key the last entry written, if it was not removed.
pub record Table : Type 0 where
  pub at : Str → Option MemEntry
  pub time : ℕ

abbrev pub readable : Table → Str → Option MemEntry
readable t k = unexpired t.time (t.at k)

abbrev pub slot_of : Option MemEntry → Option Str
slot_of none = none
slot_of (some e) = some e.value

abbrev pub got_of : Option MemEntry → Got
got_of none = not_found
got_of (some e) = found e.value

abbrev pub overwrite : Table → Str → Option MemEntry → Table
overwrite t k e = record t { at = λ j. ite (Str-discrete k j) e (t.at j) }

abbrev pub stamped : Table → Str → ℕ → Option MemEntry
stamped t v ttl = some (record { value = v; expires_at = t.time + ttl })

unfoldable pub table_exec : Table → Op → Table × Answer
table_exec t (reads k) = (t, got (got_of (readable t k)))
table_exec t (reads_many ks) = (t, slots (some (map (λ k. slot_of (readable t k)) ks)))
table_exec t (writes k v ttl) = (overwrite t k (stamped t v ttl), done true)
table_exec t (removes k) = (overwrite t k none, done true)
table_exec t (swaps k e r ttl) =
    if Str_eq (value_or_nil (readable t k)) e
    then (overwrite t k (stamped t r ttl), swapped (some true))
    else (t, swapped (some false))
table_exec t (waits d) = (record t { time = t.time + d }, done true)

unfoldable pub table_answers : Table → List Op → List Answer
table_answers t [] = []
table_answers t (o ∷ os) = (table_exec t o).1 ∷ table_answers (table_exec t o).0 os

-- The store and the table tell the same time and have the same unexpired entries.
pub record Agrees (s : MemoryStore) (t : Table) : Type 0 where
  pub same_time : s.now ≡ t.time
  pub same_entries : (k : Str) → fresh s k ≡ readable t k

pub fresh-evict :
    (s : MemoryStore) (k j : Str) → fresh (evict k s) j ≡ ite (Str-discrete k j) none (fresh s j)
unfolding unexpired
fresh-evict s k j = ground (arith, lookup-delete Str-discrete k j s.entries)

pub fresh-store_entry :
    (s : MemoryStore) (k v : Str) (ttl : ℕ) (j : Str)
    → fresh (store_entry s k v ttl) j
      ≡ ite (Str-discrete k j) (some (record { value = v; expires_at = s.now + ttl })) (fresh s j)
unfolding unexpired
fresh-store_entry s k v ttl j = ground (
  arith,
  lookup-insert Str-discrete k j (record { value = v; expires_at = s.now + ttl }) s.entries,
)

-- Evicting an entry that has expired changes nothing that can be read.
pub fresh-evict-none :
    (s : MemoryStore) (k : Str) → fresh s k ≡ none → (j : Str) → fresh (evict k s) j ≡ fresh s j
fresh-evict-none s k h j =
    fresh-evict s k j ∙ elim (Str-discrete k j) as (λ d. ite d none (fresh s j) ≡ fresh s j) [
      | yes e ↦ sym h ∙ ap (fresh s) e
      | no _ ↦ refl
    ]

pub unexpired-unexpired :
    (now d : ℕ) (o : Option MemEntry)
    → unexpired (now + d) o ≡ unexpired (now + d) (unexpired now o)
unfolding unexpired
unexpired-unexpired now d none = refl
unexpired-unexpired now d (some e) = ground arith
