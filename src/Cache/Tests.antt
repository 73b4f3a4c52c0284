-- ===== src/Cache/Tests.antt =====
-- The cache at concrete operations, and its theorems there.
use gitscale.Common.{
  ℕ, ◌≡◌, refl, ap, ◌∙◌, Bool, true, false, Option, none, some, List, [], ◌∷◌, ◌++◌, ◌==◌,
  if◌then◌else◌, not, arith,
}
use mathlib.Core.Path.{subst}
use mathlib.Core.Option.{some-injective}
use gitscale.Common.Int.{ℤ, pos}
use gitscale.Common.Map.{lookup, insert, delete}
use gitscale.Common.Str.{Str, codes, Str-discrete}
use gitscale.Cache.{found, not_found}
use gitscale.Cache.Memory.{
  MemoryStore, new_memory_store, memory_store, advance, fresh, unexpired, memory_get, memory_set,
  memory_delete, memory_compare_and_swap,
}
use gitscale.Cache.Memory.Spec.{
  Op, reads, writes, removes, swaps, waits, Answer, answers, exec, table_answers,
}
use gitscale.Cache.Memory.Refines.{new_memory_store-answers}
use gitscale.Cache.Namespace.{with_namespace, prefixed, with_namespace-isolated}
use gitscale.Cache.Records.{
  IdentityCacheEntry, identity_format, RepoLocation, Json, repo_location_format,
}
use gitscale.Cache.ReadThrough.{
  Format, loaded, load_failed, hit, current_version, read_through, prime, invalidate,
}
use gitscale.Cache.ReadThrough.Laws.{
  FormatOk, read_through-read_through, read_through-invalidate, read_through-prime,
}

abbrev key_a : Str
key_a = codes "a"

-- Written for 10 ns, read, left to expire, swapped in where nothing is left, read and removed.
abbrev session : List Op
session =
    writes key_a (codes "x") 10
    ∷ waits 10
    ∷ reads key_a
    ∷ waits 1
    ∷ reads key_a
    ∷ swaps key_a [] (codes "y") 5
    ∷ reads key_a
    ∷ removes key_a
    ∷ reads key_a
    ∷ []

table_session :
    answers (new_memory_store 100) session
    ≡ Answer.done true
      ∷ Answer.done true
      ∷ Answer.got (found (codes "x"))
      ∷ Answer.done true
      ∷ Answer.got not_found
      ∷ Answer.swapped (some true)
      ∷ Answer.got (found (codes "y"))
      ∷ Answer.done true
      ∷ Answer.got not_found
      ∷ []
unfolding answers exec memory_get memory_set memory_delete memory_compare_and_swap advance unexpired
    lookup insert delete Str-discrete new_memory_store
table_session = refl

new_memory_store-answers_example :
    answers (new_memory_store 100) session
    ≡ table_answers (record { at = λ k. none; time = 100 }) session
new_memory_store-answers_example = new_memory_store-answers 100 session

abbrev empty_store : MemoryStore
empty_store = record { entries = []; now = 100 }

with_namespace-isolated_example :
    let b = with_namespace memory_store (codes "dev") in
    let theirs = prefixed (codes "prod") key_a in
    (fresh (b.get empty_store key_a).0 theirs ≡ fresh empty_store theirs)
    × (fresh (b.mget empty_store (key_a ∷ [])).0 theirs ≡ fresh empty_store theirs)
    × (fresh (b.set empty_store key_a (codes "x") 10).0 theirs ≡ fresh empty_store theirs)
    × (fresh (b.remove empty_store key_a).0 theirs ≡ fresh empty_store theirs)
    × (fresh (b.compare_and_swap empty_store key_a [] (codes "x") 10).0 theirs
        ≡ fresh empty_store theirs)
with_namespace-isolated_example =
    with_namespace-isolated (codes "dev") (codes "prod") empty_store key_a (key_a ∷ []) (codes "x")
      [] 10 key_a (ground arith) (ground arith) (λ e. ground arith)

-- A codec for RepoLocation: a bracket, and each string with a quote after it. It reads back the
-- records whose strings have no quotes.
abbrev quote : ℕ
quote = 0x22

abbrev bracket : ℕ
bracket = 0x5b

is_plain : Str → Bool
is_plain [] = true
is_plain (c ∷ s) = let rest = is_plain s in if c == quote then false else rest

split_quote : Str → Str × Str
split_quote [] = ([], [])
split_quote (c ∷ s) =
    let (word, rest) = split_quote s in if c == quote then ([], s) else (c ∷ word, rest)

split_quote-append : (a b : Str) → is_plain a ≡ true → split_quote (a ++ quote ∷ b) ≡ (a, b)
unfolding is_plain split_quote
split_quote-append [] b h = refl
split_quote-append (c ∷ a) b h = ground (arith, split_quote-append a b)

split_three : Str → Str × Str × Str
unfolding split_quote
split_three s =
    let (a, s') = split_quote s in let (b, s'') = split_quote s' in (a, b, (split_quote s'').0)

abbrev join_three : Str → Str → Str → Str
join_three a b c = a ++ quote ∷ (b ++ quote ∷ (c ++ quote ∷ []))

split_three-join_three :
    (a b c : Str)
    → is_plain a ≡ true
    → is_plain b ≡ true
    → is_plain c ≡ true
    → split_three (join_three a b c) ≡ (a, b, c)
unfolding split_three
split_three-join_three a b c p q r =
    rw
      (
        split_quote-append a (b ++ quote ∷ (c ++ quote ∷ [])) p,
        split_quote-append b (c ++ quote ∷ []) q,
        split_quote-append c [] r,
      )
      refl

-- The records are told from the sentinel by the bracket.
abbrev bracket_header : Str → Option (ℤ × Bool)
bracket_header [] = none
bracket_header (c ∷ s) = some (current_version, not (c == bracket))

abbrev location_of : Str × Str × Str → RepoLocation
location_of (a, b, c) = record {
  version = current_version;
  replica_set_id = a;
  home_region = b;
  acl_fingerprint = c;
}

location_body : Str → Option RepoLocation
unfolding split_three
location_body [] = none
location_body (c ∷ s) = some (location_of (split_three s))

abbrev location_json : Json RepoLocation
location_json = record {
  header = bracket_header;
  body = location_body;
  marshal = λ l. some (bracket ∷ join_three l.replica_set_id l.home_region l.acl_fingerprint);
}

abbrev HasPlain : RepoLocation → Type 0
HasPlain l =
    (is_plain l.replica_set_id ≡ true)
    × (is_plain l.home_region ≡ true)
    × (is_plain l.acl_fingerprint ≡ true)

location-FormatOk : FormatOk (repo_location_format location_json) HasPlain
unfolding repo_location_format location_body
location-FormatOk = record {
  writes = λ l. (_, refl);
  reads_back = λ l valid. (
    _,
    refl,
    refl,
    ap (λ words. some (location_of words))
        (split_three-join_three l.replica_set_id l.home_region l.acl_fingerprint valid.0 valid.1
          valid.2),
  );
  reads_sentinel = refl;
}

abbrev location : RepoLocation
location = record {
  version = pos 0;
  replica_set_id = codes "rs-1";
  home_region = codes "eu";
  acl_fingerprint = codes "f00";
}

location-HasPlain : HasPlain location
unfolding is_plain
location-HasPlain = (refl, refl, refl)

abbrev stamped : RepoLocation
stamped = record location { version = current_version }

abbrev locations : Format RepoLocation
locations = repo_location_format location_json

read_through-read_through_example :
    let (s', first) =
      read_through locations memory_store empty_store key_a (loaded (some location)) in
    (first ≡ hit stamped)
    × ((read_through locations memory_store (advance 7 s') key_a load_failed).1 ≡ first)
unfolding repo_location_format unexpired lookup
read_through-read_through_example =
    read_through-read_through locations empty_store key_a (some location) load_failed 7
      location-FormatOk (λ e q. subst HasPlain (some-injective _ _ q) location-HasPlain) refl
      (omega arith) (omega arith)

-- The same codec for identities, which it reads back where there are no roles.
abbrev identity_of : List Str → Str × Str × Str → IdentityCacheEntry
identity_of roles (a, b, c) = record {
  version = current_version;
  principal_id = a;
  org_id = b;
  roles = roles;
}

identity_body : Str → Option IdentityCacheEntry
unfolding split_three
identity_body [] = none
identity_body (c ∷ s) = some (identity_of [] (split_three s))

abbrev identity_json : Json IdentityCacheEntry
identity_json = record {
  header = bracket_header;
  body = identity_body;
  marshal = λ e. some (bracket ∷ join_three e.principal_id e.org_id []);
}

abbrev HasNoRoles : IdentityCacheEntry → Type 0
HasNoRoles e = (is_plain e.principal_id ≡ true) × (is_plain e.org_id ≡ true) × ([] ≡ e.roles)

identity-FormatOk : FormatOk (identity_format identity_json) HasNoRoles
unfolding identity_format identity_body is_plain
identity-FormatOk = record {
  writes = λ e. (_, refl);
  reads_back = λ e valid. (
    _,
    refl,
    refl,
    ap (λ words. some (identity_of [] words))
          (split_three-join_three e.principal_id e.org_id [] valid.0 valid.1 refl)
        ∙ ap (λ roles. some (identity_of roles (e.principal_id, e.org_id, []))) valid.2,
  );
  reads_sentinel = refl;
}

abbrev identities : Format IdentityCacheEntry
identities = identity_format identity_json

abbrev identity : IdentityCacheEntry
identity = record {
  version = pos 0;
  principal_id = codes "p-1";
  org_id = codes "o-1";
  roles = codes "admin" ∷ [];
}

read_through-invalidate_example :
    (read_through identities memory_store
      (invalidate identities memory_store empty_store key_a).0
      key_a
      (loaded (some identity))).1
    ≡ hit (record identity { version = current_version })
unfolding identity_format
read_through-invalidate_example =
    read_through-invalidate identities empty_store key_a (loaded (some identity)) identity-FormatOk

read_through-prime_example :
    ((prime locations memory_store empty_store key_a location).1 ≡ true)
    × ((read_through locations memory_store
          (advance 7 (prime locations memory_store empty_store key_a location).0)
          key_a
          load_failed).1
        ≡ hit stamped)
unfolding repo_location_format
read_through-prime_example =
    read_through-prime locations empty_store key_a location load_failed 7 location-FormatOk
      location-HasPlain (omega arith)
