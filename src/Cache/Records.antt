-- ===== src/Cache/Records.antt =====
-- The two records of the cache, IdentityCacheEntry and RepoLocation, as formats. What
-- `encoding/json` does with them is the arguments.
use gitscale.Common.{Bool, Option, List}
use gitscale.Common.Int.{ℤ}
use gitscale.Common.Str.{Str}
use gitscale.Cache.{
  CacheStore, repo_location_key, repo_location_ttl, repo_location_not_found_ttl, identity_key,
  identity_ttl, identity_not_found_ttl,
}
use gitscale.Cache.ReadThrough.{
  Format, Loaded, Looked, current_version, read_through, prime, invalidate,
}

pub record IdentityCacheEntry : Type 0 where
  pub version : ℤ
  pub principal_id : Str
  pub org_id : Str
  pub roles : List Str

pub record RepoLocation : Type 0 where
  pub version : ℤ
  pub replica_set_id : Str
  pub home_region : Str
  pub acl_fingerprint : Str

-- json.Unmarshal into the header and into the record, and json.Marshal.
pub record Json (E : Type 0) : Type 0 where
  pub header : Str → Option (ℤ × Bool)
  pub body : Str → Option E
  pub marshal : E → Option Str

unfoldable pub identity_format : Json IdentityCacheEntry → Format IdentityCacheEntry
unfolding identity_key
identity_format j = record {
  key = identity_key;
  ttl = identity_ttl;
  not_found_ttl = identity_not_found_ttl;
  stamp = λ e. record e { version = current_version };
  header = j.header;
  body = j.body;
  marshal = j.marshal;
}

unfoldable pub repo_location_format : Json RepoLocation → Format RepoLocation
unfolding repo_location_key
repo_location_format j = record {
  key = repo_location_key;
  ttl = repo_location_ttl;
  not_found_ttl = repo_location_not_found_ttl;
  stamp = λ l. record l { version = current_version };
  header = j.header;
  body = j.body;
  marshal = j.marshal;
}

module _ {S : Type 0} (store : CacheStore S) where
  -- GetIdentity, SetIdentity and InvalidateIdentity
  unfoldable pub get_identity :
      Json IdentityCacheEntry → S → Str → Loaded IdentityCacheEntry → S × Looked IdentityCacheEntry
  unfolding identity_format
  get_identity j s id answer = read_through (identity_format j) store s id answer

  unfoldable pub set_identity : Json IdentityCacheEntry → S → Str → IdentityCacheEntry → S × Bool
  unfolding identity_format
  set_identity j s id e = prime (identity_format j) store s id e

  unfoldable pub invalidate_identity : Json IdentityCacheEntry → S → Str → S × Bool
  unfolding identity_format
  invalidate_identity j s id = invalidate (identity_format j) store s id

  -- GetRepoLocation and SetRepoLocation
  unfoldable pub get_repo_location :
      Json RepoLocation → S → Str → Loaded RepoLocation → S × Looked RepoLocation
  unfolding repo_location_format
  get_repo_location j s id answer = read_through (repo_location_format j) store s id answer

  unfoldable pub set_repo_location : Json RepoLocation → S → Str → RepoLocation → S × Bool
  unfolding repo_location_format
  set_repo_location j s id e = prime (repo_location_format j) store s id e
