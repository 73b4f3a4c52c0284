-- ===== src/Cache/ReadThrough.antt =====
-- The read-through cache that identity.go and repo_location.go both write out, once for each record:
-- GetIdentity and GetRepoLocation differ in the record, its key and its lifetimes alone, and so do
-- SetIdentity and SetRepoLocation. A singleflight group on one caller runs the loader: what it
-- answers is an argument. Errors of Set are dropped where the source drops them.
pub mod Laws
use mathlib.Core.Option
use gitscale.Common.{ℕ, Bool, true, false, not, Option, none, some, List, if◌then◌else◌}
use gitscale.Common.Int.{ℤ, pos, eq_ℤ}
use gitscale.Common.Str.{Str, codes}
use gitscale.Cache.{CacheStore, Got, found, not_found, failed}

-- A kind of record in the cache, with `encoding/json` on it: `header` reads the fields `v` and
-- `_miss`, `body` the whole record, and `stamp` sets the record's version.
pub record Format (E : Type 0) : Type 0 where
  pub key : Str → Str
  pub ttl : ℕ
  pub not_found_ttl : ℕ
  pub stamp : E → E
  pub header : Str → Option (ℤ × Bool)
  pub body : Str → Option E
  pub marshal : E → Option Str

-- The loader's answer: a record or nil, or an error.
pub data Loaded (E : Type 0) : Type 0 where
  loaded : Option E → Loaded E
  load_failed : Loaded E

-- A record, ErrNotFound, or another error.
pub data Looked (E : Type 0) : Type 0 where
  hit : E → Looked E
  missing get_failed loader_failed marshal_failed : Looked E

-- identityMissBytes and repoLocationMissBytes
abbrev pub miss_bytes : Str
miss_bytes = codes "{\"v\":1,\"_miss\":true}"

-- identityVersion and repoLocationVersion
abbrev pub current_version : ℤ
current_version = pos 1

module _ {E : Type 0} (f : Format E) where
  -- decodeIdentity and decodeRepoLocation: `some none` is the sentinel, `none` an error.
  unfoldable pub decode : Str → Option (Option E)
  decode b = elim (f.header b) [
    | none ↦ none
    | some (version, miss) ↦
        if not (eq_ℤ version current_version)
        then none
        else if miss
        then some none
        else Option.map some (f.body b)
  ]

  module _ {S : Type 0} (store : CacheStore S) where
    -- The tail of GetIdentity and GetRepoLocation, from the loader's answer on.
    unfoldable pub fill : S → Str → Loaded E → S × Looked E
    fill s id load_failed = (s, loader_failed)
    fill s id (loaded none) = ((store.set s (f.key id) miss_bytes f.not_found_ttl).0, missing)
    fill s id (loaded (some e)) = elim (f.marshal (f.stamp e)) [
      | none ↦ (s, marshal_failed)
      | some payload ↦ ((store.set s (f.key id) payload f.ttl).0, hit (f.stamp e))
    ]

    -- GetIdentity and GetRepoLocation
    unfoldable pub read_through : S → Str → Loaded E → S × Looked E
    unfolding decode fill
    read_through s id answer =
        let (s', b) = store.get s (f.key id) in
        elim b [
          | failed ↦ (s', get_failed)
          | not_found ↦ fill s' id answer
          | found bytes ↦ elim (decode bytes) [
            | none ↦ fill s' id answer
            | some none ↦ (s', missing)
            | some (some e) ↦ (s', hit e)
          ]
        ]

    -- SetIdentity and SetRepoLocation; `false` is an error.
    unfoldable pub prime : S → Str → E → S × Bool
    prime s id e = elim (f.marshal (f.stamp e)) [
      | none ↦ (s, false)
      | some payload ↦ store.set s (f.key id) payload f.ttl
    ]

    -- InvalidateIdentity
    unfoldable pub invalidate : S → Str → S × Bool
    invalidate s id = store.remove s (f.key id)
