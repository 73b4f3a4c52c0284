-- ===== src/Cache/Memory.antt =====
-- MemoryStore (store_memory.go) on a FakeClock, whose reading is part of the state. The copies that
-- the source makes of each value keep the caller's slices apart from the store's: here values are
-- immutable.
pub mod Spec
pub mod Refines
use gitscale.Common.{
  ℕ, ◌+◌, Bool, true, false, Option, none, some, List, [], ◌∷◌, ltb, if◌then◌else◌,
}
use gitscale.Common.Map.{lookup, insert, delete}
use gitscale.Common.Str.{Str, Str-discrete, Str_eq}
use gitscale.Cache.{CacheStore, Got, found, not_found}

pub record MemEntry : Type 0 where
  pub value : Str
  pub expires_at : ℕ

pub record MemoryStore : Type 0 where
  pub entries : List (Str × MemEntry)
  pub now : ℕ

unfoldable pub new_memory_store : ℕ → MemoryStore
new_memory_store now = record { entries = []; now = now }

-- FakeClock.Advance
unfoldable pub advance : ℕ → MemoryStore → MemoryStore
advance d s = record s { now = s.now + d }

-- The entry, unless the clock's reading is after its deadline.
unfoldable pub unexpired : ℕ → Option MemEntry → Option MemEntry
unexpired now none = none
unexpired now (some e) = if ltb e.expires_at now then none else some e

abbrev pub evict : Str → MemoryStore → MemoryStore
evict key s = record s { entries = delete Str-discrete key s.entries }

abbrev pub fresh : MemoryStore → Str → Option MemEntry
fresh s key = unexpired s.now (lookup Str-discrete key s.entries)

-- Get
unfoldable pub memory_get : MemoryStore → Str → MemoryStore × Got
memory_get s key = elim (fresh s key) [
  | none ↦ (evict key s, not_found)
  | some e ↦ (s, found e.value)
]

-- The loop of MGet. The clock is read once; the lock is held throughout.
unfoldable pub memory_slots : MemoryStore → List Str → MemoryStore × List (Option Str)
memory_slots s [] = (s, [])
memory_slots s (key ∷ keys) = elim (fresh s key) [
  | none ↦ let (s', slots) = memory_slots (evict key s) keys in (s', none ∷ slots)
  | some e ↦ let (s', slots) = memory_slots s keys in (s', some e.value ∷ slots)
]

-- MGet
unfoldable pub memory_mget : MemoryStore → List Str → MemoryStore × Option (List (Option Str))
unfolding memory_slots
memory_mget s keys = let (s', slots) = memory_slots s keys in (s', some slots)

abbrev pub store_entry : MemoryStore → Str → Str → ℕ → MemoryStore
store_entry s key value ttl = record s {
  entries = insert Str-discrete key (record { value = value; expires_at = s.now + ttl }) s.entries;
}

-- Set
unfoldable pub memory_set : MemoryStore → Str → Str → ℕ → MemoryStore × Bool
memory_set s key value ttl = (store_entry s key value ttl, true)

-- Delete
unfoldable pub memory_delete : MemoryStore → Str → MemoryStore × Bool
memory_delete s key = (evict key s, true)

-- The value, or Go's nil slice, which bytes.Equal takes for an empty one.
abbrev pub value_or_nil : Option MemEntry → Str
value_or_nil none = []
value_or_nil (some e) = e.value

-- CompareAndSwap
unfoldable pub memory_compare_and_swap :
    MemoryStore → Str → Str → Str → ℕ → MemoryStore × Option Bool
memory_compare_and_swap s key expected replacement ttl =
    if Str_eq (value_or_nil (fresh s key)) expected
    then (store_entry s key replacement ttl, some true)
    else (s, some false)

abbrev pub memory_store : CacheStore MemoryStore
memory_store = record {
  get = memory_get;
  mget = memory_mget;
  set = memory_set;
  remove = memory_delete;
  compare_and_swap = memory_compare_and_swap;
}
