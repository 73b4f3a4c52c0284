-- ===== src/Cache.antt =====
-- The cache (plane/data/cache): the CacheStore interface of store.go and the keys of keys.go. Times
-- and durations are numbers of nanoseconds.
pub mod Memory
pub mod Namespace
pub mod ReadThrough
pub mod Records
mod Tests
use gitscale.Common.{ℕ, ◌*◌, Bool, Option, List, ◌++◌}
use gitscale.Common.Str.{Str, codes}

-- ([]byte, nil), ErrNotFound, or another error of the backend.
pub data Got : Type 0 where
  found : Str → Got
  not_found failed : Got

-- A store whose state is `S`. `true` is a nil error, `none` an error.
pub record CacheStore (S : Type 0) : Type 0 where
  pub get : S → Str → S × Got
  pub mget : S → List Str → S × Option (List (Option Str))
  pub set : S → Str → Str → ℕ → S × Bool
  pub remove : S → Str → S × Bool
  pub compare_and_swap : S → Str → Str → Str → ℕ → S × Option Bool

abbrev pub seconds : ℕ → ℕ
seconds n = n * 1_000_000_000

-- RepoLocationKey and IdentityKey, filled with the text of a UUID.
unfoldable pub repo_location_key : Str → Str
repo_location_key id = codes "repo:loc:" ++ id

unfoldable pub identity_key : Str → Str
identity_key id = codes "identity:" ++ id

abbrev pub repo_location_ttl : ℕ
repo_location_ttl = seconds 600

abbrev pub repo_location_not_found_ttl : ℕ
repo_location_not_found_ttl = seconds 30

abbrev pub identity_ttl : ℕ
identity_ttl = seconds 60

abbrev pub identity_not_found_ttl : ℕ
identity_not_found_ttl = seconds 30
