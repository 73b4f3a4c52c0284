-- ===== src/MetadataStub.antt =====
-- The in-memory metadata store (plane/data/store/stub/metadata.go) with the row models of
-- plane/data/store/metadata.go. `float64` is a type `F`, and an event's payload a type `P`.
pub mod Calls
pub mod Serial
pub mod Reads
mod Tests
use gitscale.Common.{
  ℕ, Bool, true, false, not, Option, none, some, List, [], ◌∷◌, ◌++◌, ℕ_discrete, if◌then◌else◌,
}
use gitscale.Common.Int.{ℤ}
use gitscale.Common.Map.{lookup, insert}
use gitscale.Common.Str.{Str, Str_eq, codes}
use gitscale.Outbox.Expirer.{is_valid_domain}

pub record HumanUser : Type 0 where
  pub id : ℕ
  pub email : Str
  pub credential_hash : Str
  pub rate_bucket : Str
  pub quota_account_id : Option ℕ
  pub created_at : ℕ
  pub updated_at : ℕ

pub record AgentIdentity (F : Type 0) : Type 0 where
  pub id : ℕ
  pub display_name : Str
  pub parent_user_id : ℕ
  pub permission_scope : List Str
  pub rate_bucket : Str
  pub session_quota : Option ℤ
  pub tokens_per_week_cap : Option ℤ
  pub reputation_score : F
  pub quota_account_id : Option ℕ
  pub created_at : ℕ
  pub updated_at : ℕ

pub record CloneToken : Type 0 where
  pub id : ℕ
  pub token : Str
  pub principal_id : ℕ
  pub repo_id : ℕ
  pub expires_at : ℕ
  pub created_at : ℕ

pub record Repository : Type 0 where
  pub id : ℕ
  pub org_id : ℕ
  pub name : Str
  pub slug : Str
  pub owner_id : ℕ
  pub default_branch : Str
  pub visibility : Str
  pub replica_set_id : Str
  pub home_region : Str
  pub created_at : ℕ
  pub updated_at : ℕ

pub record OutboxRecord (P : Type 0) : Type 0 where
  pub domain : Str
  pub aggregate_type : Str
  pub aggregate_id : ℕ
  pub event_type : Str
  pub payload : P
  pub event_id : ℕ

-- The maps of Store, and as well the pending ones of stubTx, whose nil maps are empty.
pub record Rows (F P : Type 0) : Type 0 where
  pub users : List (ℕ × HumanUser)
  pub agents : List (ℕ × AgentIdentity F)
  pub repositories : List (ℕ × Repository)
  pub clone_tokens : List (ℕ × CloneToken)
  pub outbox : List (OutboxRecord P)

abbrev pub get : {V : Type 0} → ℕ → List (ℕ × V) → Option V
get k m = lookup ℕ_discrete k m

abbrev pub put : {V : Type 0} → ℕ → V → List (ℕ × V) → List (ℕ × V)
put k v m = insert ℕ_discrete k v m

-- Transact's loop over a pending map, whose keys are distinct.
unfoldable pub apply_pending : {V : Type 0} → List (ℕ × V) → List (ℕ × V) → List (ℕ × V)
apply_pending [] m = m
apply_pending ((k, v) ∷ p) m = put k v (apply_pending p m)

-- A read in a transaction: what is pending, and else what is committed.
abbrev pub get_both : {V : Type 0} → ℕ → List (ℕ × V) → List (ℕ × V) → Option V
get_both k p m = elim (get k p) [ some v ↦ some v | none ↦ get k m ]

abbrev pub has : {V : Type 0} → ℕ → List (ℕ × V) → Bool
has k m = elim (get k m) [ some v ↦ true | none ↦ false ]

module _ {F P : Type 0} where
  abbrev pub new_rows : Rows F P
  new_rows = record { users = []; agents = []; repositories = []; clone_tokens = []; outbox = [] }

  unfoldable pub commit : Rows F P → Rows F P → Rows F P
  commit tx s = record {
    users = apply_pending tx.users s.users;
    agents = apply_pending tx.agents s.agents;
    repositories = apply_pending tx.repositories s.repositories;
    clone_tokens = apply_pending tx.clone_tokens s.clone_tokens;
    outbox = s.outbox ++ tx.outbox;
  }

  -- `fn` takes the committed rows and the pending ones; `none` is its error.
  unfoldable pub transact : (Rows F P → Rows F P → Option (Rows F P)) → Rows F P → Rows F P × Bool
  transact fn s = elim (fn s new_rows) [ none ↦ (s, false) | some tx ↦ (commit tx s, true) ]

  abbrev pub get_user_by_id : Rows F P → ℕ → Option HumanUser
  get_user_by_id s id = get id s.users

  abbrev pub get_agent_by_id : Rows F P → ℕ → Option (AgentIdentity F)
  get_agent_by_id s id = get id s.agents

  abbrev pub get_repository_by_id : Rows F P → ℕ → Option Repository
  get_repository_by_id s id = get id s.repositories

  -- The calls of a transaction, on the committed rows `s` and the pending `tx`.
  unfoldable pub insert_human_user : HumanUser → Rows F P → Rows F P → Option (Rows F P)
  insert_human_user u s tx = some (record tx { users = put u.id u tx.users })

  unfoldable pub insert_agent_identity : AgentIdentity F → Rows F P → Rows F P → Option (Rows F P)
  insert_agent_identity a s tx = some (record tx { agents = put a.id a tx.agents })

  unfoldable pub set_agent_reputation_score : ℕ → F → Rows F P → Rows F P → Option (Rows F P)
  set_agent_reputation_score id score s tx = elim (get id tx.agents) [
    | some a ↦
        some (record tx { agents = put id (record a { reputation_score = score }) tx.agents })
    | none ↦ elim (get id s.agents) [
      | none ↦ none
      | some a ↦
          some (record tx { agents = put id (record a { reputation_score = score }) tx.agents })
    ]
  ]

  unfoldable pub disable_user : ℕ → Rows F P → Rows F P → Option (Rows F P)
  disable_user id s tx =
      if has id s.users then some tx else if has id tx.users then some tx else none

  unfoldable pub revoke_agent : ℕ → Rows F P → Rows F P → Option (Rows F P)
  revoke_agent id s tx =
      if has id s.agents then some tx else if has id tx.agents then some tx else none

  unfoldable pub update_agent_permissions : ℕ → List Str → Rows F P → Rows F P → Option (Rows F P)
  update_agent_permissions id scope s tx = elim (get id s.agents) [
    | none ↦ elim (get id tx.agents) [
      | none ↦ none
      | some a ↦
          some (record tx { agents = put id (record a { permission_scope = scope }) tx.agents })
    ]
    | some a ↦
        some (record tx { agents = put id (record a { permission_scope = scope }) tx.agents })
  ]

  unfoldable pub insert_clone_token : CloneToken → Rows F P → Rows F P → Option (Rows F P)
  insert_clone_token c s tx = some (record tx { clone_tokens = put c.id c tx.clone_tokens })

  unfoldable pub insert_repository : Repository → Rows F P → Rows F P → Option (Rows F P)
  insert_repository r s tx = some (record tx { repositories = put r.id r tx.repositories })

  unfoldable pub write_outbox : OutboxRecord P → Rows F P → Rows F P → Option (Rows F P)
  write_outbox e s tx =
      if is_valid_domain e.domain then some (record tx { outbox = tx.outbox ++ e ∷ [] }) else none
