-- ===== src/Cache/Namespace.antt =====
-- Namespaced stores (store_namespace.go).
use gitscale.Common.{
  ℕ, ◌≡◌, ◌≢◌, refl, ◌∙◌, List, [], ◌∷◌, ◌++◌, map, arith, All, Bool-cases, inl, inr,
}
use mathlib.Core.Logic.{if_neg}
use gitscale.Common.Map.{lookup}
use gitscale.Common.Str.{Str, Str-discrete, Str_eq, codes}
use gitscale.Cache.{CacheStore}
use gitscale.Cache.Memory.{
  MemoryStore, memory_store, fresh, store_entry, evict, memory_mget, memory_set, memory_delete,
  memory_compare_and_swap, value_or_nil,
}
use gitscale.Cache.Memory.Spec.{Agrees, Table, fresh-evict, fresh-store_entry}
use gitscale.Cache.Memory.Refines.{memory_get-Agrees, memory_slots-Agrees}

-- prefixed, with the prefix of WithNamespace
unfoldable pub prefixed : Str → Str → Str
prefixed env key = codes "gitscale:" ++ (env ++ b':' ∷ key)

-- WithNamespace
unfoldable pub with_namespace : {S : Type 0} → CacheStore S → Str → CacheStore S
with_namespace inner env = record {
  get = λ s key. inner.get s (prefixed env key);
  mget = λ s keys. inner.mget s (map (prefixed env) keys);
  set = λ s key value ttl. inner.set s (prefixed env key) value ttl;
  remove = λ s key. inner.remove s (prefixed env key);
  compare_and_swap = λ s key expected replacement ttl.
      inner.compare_and_swap s (prefixed env key) expected replacement ttl;
}

abbrev pub HasNoColon : Str → Type 0
HasNoColon s = All (λ c. c ≢ b':') s

-- The text up to the first colon is determined.
before_colon : (a b k j : Str) → HasNoColon a → HasNoColon b → a ++ b':' ∷ k ≡ b ++ b':' ∷ j → a ≡ b
before_colon [] [] k j ha hb e = refl
before_colon [] (y ∷ b) k j ha hb e = absurd (hb.0 (ground arith))
before_colon (x ∷ a) [] k j ha hb e = absurd (ha.0 (ground arith))
before_colon (x ∷ a) (y ∷ b) k j ha hb e = ground (arith, before_colon a b k j)

prefixed-ne :
    (env env' k j : Str)
    → HasNoColon env
    → HasNoColon env'
    → env ≢ env'
    → prefixed env k ≢ prefixed env' j
unfolding prefixed
prefixed-ne env env' k j h h' ne e = ne (before_colon env env' k j h h' (ground arith))

-- What is read under a key that an operation does not touch.
pub evict-other : (s : MemoryStore) (k j : Str) → k ≢ j → fresh (evict k s) j ≡ fresh s j
evict-other s k j ne = fresh-evict s k j ∙ if_neg (Str-discrete k j) ne _ _

pub store_entry-other :
    (s : MemoryStore) (k v : Str) (ttl : ℕ) (j : Str)
    → k ≢ j
    → fresh (store_entry s k v ttl) j ≡ fresh s j
store_entry-other s k v ttl j ne = fresh-store_entry s k v ttl j ∙ if_neg (Str-discrete k j) ne _ _

compare_and_swap-other :
    (s : MemoryStore) (k e r : Str) (ttl : ℕ) (j : Str)
    → k ≢ j
    → fresh (memory_compare_and_swap s k e r ttl).0 j ≡ fresh s j
unfolding memory_compare_and_swap
compare_and_swap-other s k e r ttl j ne = elim (Bool-cases (Str_eq (value_or_nil (fresh s k)) e)) [
  | inl q ↦ rw q (store_entry-other s k r ttl j ne)
  | inr q ↦ rw q
]

-- The table that a store shows.
abbrev pub shown : MemoryStore → Table
shown s = record { at = λ k. lookup Str-discrete k s.entries; time = s.now }

pub shown-Agrees : (s : MemoryStore) → Agrees s (shown s)
shown-Agrees s = record { same_time = refl; same_entries = λ k. refl }

-- No operation through the namespace of one environment changes what is readable in the namespace of
-- another, where neither name has a colon.
pub with_namespace-isolated :
    (env env' : Str) (s : MemoryStore) (key : Str) (keys : List Str) (value expected : Str)
    (ttl : ℕ) (other : Str)
    → HasNoColon env
    → HasNoColon env'
    → env ≢ env'
    → let b = with_namespace memory_store env in
      let theirs = prefixed env' other in
      (fresh (b.get s key).0 theirs ≡ fresh s theirs)
      × (fresh (b.mget s keys).0 theirs ≡ fresh s theirs)
      × (fresh (b.set s key value ttl).0 theirs ≡ fresh s theirs)
      × (fresh (b.remove s key).0 theirs ≡ fresh s theirs)
      × (fresh (b.compare_and_swap s key expected value ttl).0 theirs ≡ fresh s theirs)
unfolding with_namespace memory_mget memory_set memory_delete
with_namespace-isolated env env' s key keys value expected ttl other h h' ne =
    let apart = prefixed-ne env env' key other h h' ne in
    let many = memory_slots-Agrees (map (prefixed env) keys) s (shown s) (shown-Agrees s) in
    (
      (memory_get-Agrees (prefixed env key) (shown-Agrees s)).0.same_entries (prefixed env' other),
      many.0.same_entries (prefixed env' other),
      store_entry-other s (prefixed env key) value ttl (prefixed env' other) apart,
      evict-other s (prefixed env key) (prefixed env' other) apart,
      compare_and_swap-other s (prefixed env key) expected value ttl (prefixed env' other) apart,
    )
