-- ===== src/Cache/ReadThrough/Laws.antt =====
-- A reader of the cache over MemoryStore (identity.go, repo_location.go).
use gitscale.Common.{ℕ, ◌+◌, ◌≤◌, ◌≡◌, refl, sym, ap, ◌∙◌, true, false, Option, none, some, arith}
use mathlib.Core.Logic.{if_pos}
use gitscale.Common.Map.{lookup-insert_self}
use gitscale.Common.Str.{Str, Str-discrete}
use gitscale.Cache.{found, not_found}
use gitscale.Cache.Memory.{
  MemoryStore, memory_store, memory_get, memory_set, memory_delete, advance, unexpired, fresh,
  store_entry, evict,
}
use gitscale.Cache.Memory.Spec.{fresh-evict}
use gitscale.Cache.ReadThrough.{
  Format, Loaded, loaded, load_failed, Looked, hit, missing, loader_failed, miss_bytes,
  current_version, decode, fill, read_through, prime, invalidate,
}

-- What the code relies on of `encoding/json`: a stamped record is written, and one that is `Valid`,
-- which is that its strings are valid UTF-8, is read back with the current version and no miss; the
-- sentinel is read as a miss of the current version.
pub record FormatOk {E : Type 0} (f : Format E) (Valid : E → Type 0) : Type 0 where
  pub writes : (e : E) → (payload : Str) × (f.marshal (f.stamp e) ≡ some payload)
  pub reads_back :
      (e : E)
      → Valid e
      → (payload : Str) × (f.marshal (f.stamp e) ≡ some payload)
        × (f.header payload ≡ some (current_version, false))
        × (f.body payload ≡ some (f.stamp e))
  pub reads_sentinel : f.header miss_bytes ≡ some (current_version, true)

-- What the loader's answer amounts to for a caller.
abbrev pub answer_of : {E : Type 0} → Format E → Loaded E → Looked E
answer_of f (loaded none) = missing
answer_of f (loaded (some e)) = hit (f.stamp e)
answer_of f load_failed = loader_failed

-- A value is read back until its deadline.
pub get_stored :
    (s : MemoryStore) (k v : Str) (ttl d : ℕ)
    → d ≤ ttl
    → memory_get (advance d (store_entry s k v ttl)) k
      ≡ (advance d (store_entry s k v ttl), found v)
unfolding memory_get advance unexpired
get_stored s k v ttl d h = ground (
  arith,
  lookup-insert_self Str-discrete k (record { value = v; expires_at = s.now + ttl }) s.entries,
)

-- A read under a key where `b` is stored.
read_stored :
    {E : Type 0} (f : Format E) (s : MemoryStore) (id b : Str) (ttl d : ℕ) (o : Option E)
    (answer : Loaded E)
    → d ≤ ttl
    → decode f b ≡ some o
    → (read_through f memory_store (advance d (store_entry s (f.key id) b ttl)) id answer).1
      ≡ elim o [ none ↦ missing | some e ↦ hit e ]
unfolding read_through
read_stored f s id b ttl d none answer h q = rw (get_stored s (f.key id) b ttl d h, q, read_through)
read_stored f s id b ttl d (some e) answer h q =
    rw (get_stored s (f.key id) b ttl d h, q, read_through)

decode-payload :
    {E : Type 0} (f : Format E) (payload : Str) (e : E)
    → f.header payload ≡ some (current_version, false)
    → f.body payload ≡ some e
    → decode f payload ≡ some (some e)
unfolding decode
decode-payload f payload e h b = rw (h, b, decode)

decode-sentinel :
    {E : Type 0} {Valid : E → Type 0} (f : Format E)
    → FormatOk f Valid
    → decode f miss_bytes ≡ some none
unfolding decode
decode-sentinel f ok = rw (ok.reads_sentinel, decode)

pub get_absent :
    (s : MemoryStore) (k : Str) → fresh s k ≡ none → memory_get s k ≡ (evict k s, not_found)
unfolding memory_get
get_absent s k h = rw (h, memory_get)

-- A read where nothing is stored is the tail of the function.
read_absent :
    {E : Type 0} (f : Format E) (s : MemoryStore) (id : Str) (answer : Loaded E)
    → fresh s (f.key id) ≡ none
    → read_through f memory_store s id answer ≡ fill f memory_store (evict (f.key id) s) id answer
unfolding read_through
read_absent f s id answer h =
    rw (get_absent s (f.key id) h, read_through)
      (ap (λ r. fill f memory_store r.0 id answer) (get_absent s (f.key id) h))

fill-answer :
    {E : Type 0} {Valid : E → Type 0} (f : Format E) (s : MemoryStore) (id : Str)
    (answer : Loaded E)
    → FormatOk f Valid
    → (fill f memory_store s id answer).1 ≡ answer_of f answer
unfolding fill
fill-answer f s id load_failed ok = refl
fill-answer f s id (loaded none) ok = refl
fill-answer f s id (loaded (some e)) ok = let (p, m) = ok.writes e in rw (m, fill)

-- What is filled in is read back, whatever the loader would say by then.
read-fill :
    {E : Type 0} {Valid : E → Type 0} (f : Format E) (s : MemoryStore) (id : Str) (o : Option E)
    (later : Loaded E) (d : ℕ)
    → FormatOk f Valid
    → ((e : E) → o ≡ some e → Valid e)
    → d ≤ f.ttl
    → d ≤ f.not_found_ttl
    → (read_through f memory_store (advance d (fill f memory_store s id (loaded o)).0) id later).1
      ≡ answer_of f (loaded o)
unfolding fill memory_set
read-fill f s id none later d ok valid h h' =
    read_stored f s id miss_bytes f.not_found_ttl d none later h' (decode-sentinel f ok)
read-fill f s id (some e) later d ok valid h h' =
    let (p, m, hd, b) = ok.reads_back e (valid e refl) in
    rw (m, fill)
      (read_stored f s id p f.ttl d (some (f.stamp e)) later h
        (decode-payload f p (f.stamp e) hd b))

-- Where nothing readable is cached, a read answers what the loader answers, and every read within
-- the two lifetimes afterwards answers the same, whatever the loader would answer by then, provided
-- that `encoding/json` reads back what the loader answered.
pub read_through-read_through :
    {E : Type 0} {Valid : E → Type 0} (f : Format E) (s : MemoryStore) (id : Str) (o : Option E)
    (later : Loaded E) (d : ℕ)
    → FormatOk f Valid
    → ((e : E) → o ≡ some e → Valid e)
    → fresh s (f.key id) ≡ none
    → d ≤ f.ttl
    → d ≤ f.not_found_ttl
    → let (s', first) = read_through f memory_store s id (loaded o) in
      (first ≡ answer_of f (loaded o))
      × ((read_through f memory_store (advance d s') id later).1 ≡ first)
read_through-read_through f s id o later d ok valid absent h h' =
    rw (read_absent f s id (loaded o) absent) (
      let first = fill-answer f (evict (f.key id) s) id (loaded o) ok in
      (first, read-fill f (evict (f.key id) s) id o later d ok valid h h' ∙ sym first))

-- After InvalidateIdentity a read answers what the loader answers, whatever was cached.
pub read_through-invalidate :
    {E : Type 0} {Valid : E → Type 0} (f : Format E) (s : MemoryStore) (id : Str)
    (answer : Loaded E)
    → FormatOk f Valid
    → (read_through f memory_store (invalidate f memory_store s id).0 id answer).1
      ≡ answer_of f answer
unfolding invalidate memory_delete
read_through-invalidate f s id answer ok =
    ap (λ r. r.1)
      (read_absent f (evict (f.key id) s) id answer (
        fresh-evict s (f.key id) (f.key id) ∙ if_pos (Str-discrete (f.key id) (f.key id)) refl _ _))
    ∙ fill-answer f (evict (f.key id) (evict (f.key id) s)) id answer ok

-- A record that was set directly, and that `encoding/json` reads back, is read within its lifetime,
-- whatever the loader would answer.
pub read_through-prime :
    {E : Type 0} {Valid : E → Type 0} (f : Format E) (s : MemoryStore) (id : Str) (e : E)
    (answer : Loaded E) (d : ℕ)
    → FormatOk f Valid
    → Valid e
    → d ≤ f.ttl
    → ((prime f memory_store s id e).1 ≡ true)
      × ((read_through f memory_store (advance d (prime f memory_store s id e).0) id answer).1
          ≡ hit (f.stamp e))
unfolding prime memory_set
read_through-prime f s id e answer d ok valid h =
    let (p, m, hd, b) = ok.reads_back e valid in
    rw (m, prime)
      (
        refl,
        read_stored f s id p f.ttl d (some (f.stamp e)) answer h
            (decode-payload f p (f.stamp e) hd b),
      )
