-- ===== src/MetadataStub/Reads.antt =====
-- The reads of stub/metadata.go, outside a transaction and in one. A Go map that is ranged over is the
-- list of its entries in some order.
use mathlib.Core.Option
use gitscale.Common.{ℕ, ◌≡◌, sym, Bool, Option, none, some, List, [], ◌∷◌, ◌==◌, if◌then◌else◌}
use gitscale.Common.Str.{Str, Str_eq, codes}
use gitscale.MetadataStub.{
  HumanUser, AgentIdentity, Repository, Rows, get, get_both, commit, get_user_by_id,
  get_agent_by_id, get_repository_by_id,
}
use gitscale.MetadataStub.Serial.{get-apply_pending}

-- store.IdentityCacheEntry
pub record Projection : Type 0 where
  pub principal_id : ℕ
  pub kind : Str
  pub rate_bucket : Str
  pub quota_id : Option ℕ

abbrev or_else : {V : Type 0} → Option V → Option V → Option V
or_else none b = b
or_else (some v) b = some v

unfoldable pub find_user : (HumanUser → Bool) → List (ℕ × HumanUser) → Option HumanUser
find_user p [] = none
find_user p ((k, u) ∷ m) = let rest = find_user p m in if p u then some u else rest

unfoldable pub find_repository : (Repository → Bool) → List (ℕ × Repository) → Option Repository
find_repository p [] = none
find_repository p ((k, r) ∷ m) = let rest = find_repository p m in if p r then some r else rest

unfoldable pub get_agents_by_parent_user :
    {F : Type 0} → ℕ → List (ℕ × AgentIdentity F) → List (AgentIdentity F)
get_agents_by_parent_user user_id [] = []
get_agents_by_parent_user user_id ((k, a) ∷ m) =
    let rest = get_agents_by_parent_user user_id m in
    if a.parent_user_id == user_id then a ∷ rest else rest

module _ {F P : Type 0} where
  unfoldable pub get_user_by_email : Rows F P → Str → Option HumanUser
  get_user_by_email s email = find_user (λ u. Str_eq u.email email) s.users

  unfoldable pub get_user_by_email_in : Rows F P → Rows F P → Str → Option HumanUser
  get_user_by_email_in s tx email =
      or_else (find_user (λ u. Str_eq u.email email) tx.users) (get_user_by_email s email)

  unfoldable pub get_repository_by_slug : Rows F P → Str → Option Repository
  get_repository_by_slug s slug = find_repository (λ r. Str_eq r.slug slug) s.repositories

  unfoldable pub get_repository_by_slug_in : Rows F P → Rows F P → Str → Option Repository
  get_repository_by_slug_in s tx slug =
      or_else (find_repository (λ r. Str_eq r.slug slug) tx.repositories)
        (get_repository_by_slug s slug)

  unfoldable pub get_user_by_id_in : Rows F P → Rows F P → ℕ → Option HumanUser
  get_user_by_id_in s tx id = get_both id tx.users s.users

  unfoldable pub get_agent_by_id_in : Rows F P → Rows F P → ℕ → Option (AgentIdentity F)
  get_agent_by_id_in s tx id = get_both id tx.agents s.agents

  unfoldable pub get_repository_by_id_in : Rows F P → Rows F P → ℕ → Option Repository
  get_repository_by_id_in s tx id = get_both id tx.repositories s.repositories

  unfoldable pub lookup_identity_for_cache : Rows F P → ℕ → Option Projection
  lookup_identity_for_cache s id =
      or_else
        (Option.map
          (λ u. record {
            principal_id = u.id;
            kind = codes "human";
            rate_bucket = u.rate_bucket;
            quota_id = u.quota_account_id;
          })
          (get id s.users))
        (Option.map
          (λ a. record {
            principal_id = a.id;
            kind = codes "agent";
            rate_bucket = a.rate_bucket;
            quota_id = a.quota_account_id;
          })
          (get id s.agents))

  -- A transaction reads its own writes: what a read by id finds in it is what the read finds once it
  -- has committed.
  pub reads-commit :
      (s tx : Rows F P) (id : ℕ)
      → (get_user_by_id_in s tx id ≡ get_user_by_id (commit tx s) id)
        × (get_agent_by_id_in s tx id ≡ get_agent_by_id (commit tx s) id)
        × (get_repository_by_id_in s tx id ≡ get_repository_by_id (commit tx s) id)
  unfolding commit get_user_by_id_in get_agent_by_id_in get_repository_by_id_in
  reads-commit s tx id = (
    sym (get-apply_pending id tx.users s.users),
    sym (get-apply_pending id tx.agents s.agents),
    sym (get-apply_pending id tx.repositories s.repositories),
  )
